-- ===== src/Request/Step.antt =====
-- What reconciling one key does to its request.
use developer_portal_control.Prelude.{
  false, ◌||◌, if◌then◌else◌, List, [], ◌∷◌, ◌≡◌, refl, ap, ◌∙◌, Bool-cases, inl, inr, is_some,
}
use developer_portal_control.Prelude.Outcome.{Result, ok, err, is_not_found}
use developer_portal_control.Api.Object.{key_of}
use developer_portal_control.Api.Key.{ApiKey}
use developer_portal_control.Api.Request.{ApiKeyRequest}
use developer_portal_control.Deps.{Deps}
use developer_portal_control.Client.{Client, Call, create_request, update_request}
use developer_portal_control.Client.Run.{perform}
use developer_portal_control.Reconcilers.{reconcile_resource, reconcile_read, update_if, mutator}
use developer_portal_control.Request.{
  request_kind, equal_spec, api_key_request_spec_mutator, request_spec, is_failed_state,
  built_request, reconcile_key,
}
use developer_portal_control.Request.Due.{IsRetired}
use developer_portal_control.Request.Writes.{not_tagged, desired-alive}

module _ (d : Deps) (c : Client) (key : ApiKey) (h : List Call) where
  alive-eq : (¬ IsRetired d key) → (is_some key.deletion_timestamp || is_failed_state d key) ≡ false
  alive-eq alive = elim (Bool-cases (is_some key.deletion_timestamp || is_failed_state d key)) [
    | inl e ↦ absurd (alive e)
    | inr e ↦ e
  ]

  -- The answer to the read of the key's request.
  abbrev pub read_request : Result ApiKeyRequest
  read_request = (c.snapshot h).get_request (key_of (built_request d key).metadata)

  by_read :
      (¬ IsRetired d key)
      → (r : Result ApiKeyRequest) → read_request ≡ r
      → reconcile_key d c key h
        ≡ reconcile_read request_kind c
            (built_request d key)
            (mutator (api_key_request_spec_mutator ∷ []))
            r
            h
  unfolding reconcile_key reconcile_resource
  by_read alive r e =
      ap (λ x. reconcile_resource request_kind c x (mutator (api_key_request_spec_mutator ∷ [])) h)
        (desired-alive d key (alive-eq alive))
      ∙ ap
          (λ a.
            reconcile_read request_kind c (built_request d key)
              (mutator (api_key_request_spec_mutator ∷ [])) a h)
          e

  -- What is to be done, by that answer.
  abbrev pub due_step : Result ApiKeyRequest → Result (Unit {0}) × List Call
  due_step (ok existing) =
      if equal_spec existing.spec (request_spec key)
      then (ok tt, h)
      else perform c (update_request (record existing { spec = request_spec key })) h
  due_step (err e) =
      if is_not_found e then perform c (create_request (built_request d key)) h else (err e, h)

  step_of :
      (r : Result ApiKeyRequest)
      → reconcile_read request_kind c
          (built_request d key)
          (mutator (api_key_request_spec_mutator ∷ []))
          r
          h
        ≡ due_step r
  unfolding reconcile_read update_if mutator api_key_request_spec_mutator built_request
  step_of (ok existing) = elim (Bool-cases (equal_spec existing.spec (request_spec key))) [
    | inl e ↦ rw (not_tagged d key, e) refl
    | inr e ↦ rw (not_tagged d key, e) refl
  ]
  step_of (err e) = elim (Bool-cases (is_not_found e)) [
    | inl q ↦ rw (q, not_tagged d key) refl
    | inr q ↦ rw q refl
  ]

  -- Reconciling a key that is neither being deleted nor failed brings its request up to date in one
  -- step: a request that has the key's specification is left alone, and nothing is written; one that
  -- has another gets it, and is otherwise as it was read; where there is none, the request that is
  -- built for the key is created; and any other answer to the read fails, with nothing written.
  pub live_key-step : (¬ IsRetired d key) → reconcile_key d c key h ≡ due_step read_request
  live_key-step alive = by_read alive read_request refl ∙ step_of read_request
