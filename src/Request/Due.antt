-- ===== src/Request/Due.antt =====
-- The writes that are due for requests, and what the answer to a read of a request leads to.
use developer_portal_control.Prelude.{
  true, false, ◌||◌, List, [], ◌∷◌, ◌≡◌, ◌≢◌, refl, ◌⊎◌, inl, inr, arith, In, Bool-cases, is_some,
}
use developer_portal_control.Prelude.Outcome.{Result, ok, err, is_not_found}
use developer_portal_control.Api.Object.{key_of}
use developer_portal_control.Api.Key.{ApiKey}
use developer_portal_control.Api.Request.{ApiKeyRequest, client_object}
use developer_portal_control.Deps.{Deps}
use developer_portal_control.Prelude.Decide.{to_bool_iff}
use developer_portal_control.Client.{Client, Call, create_request, update_request, delete_request}
use developer_portal_control.Client.Sends.{same, more, Sends}
use developer_portal_control.Reconcilers.{
  reconcile_read, mutator, is_object_tagged_to_delete, tag_object_to_delete, update_if,
  delete_resource,
}
use developer_portal_control.Request.{
  request_kind, ApiKeyRequestSpec-discrete, equal_spec, api_key_request_spec_mutator, request_spec,
  is_failed_state, built_request,
}

-- A key for which there is to be no request.
abbrev pub IsRetired : Deps → ApiKey → Type 0
IsRetired d key = (is_some key.deletion_timestamp || is_failed_state d key) ≡ true

module _ (d : Deps) (c : Client) (keys : List ApiKey) (requests : List ApiKeyRequest) where
  abbrev pub IsCreation : Call → Type 0
  IsCreation w =
      (key : ApiKey) × In key keys
      × (¬ IsRetired d key)
      × (w ≡ create_request (built_request d key))

  -- The request that was read for a key gets the key's specification, which it did not have, and is
  -- otherwise left as it is.
  abbrev pub IsUpdate : Call → Type 0
  IsUpdate w =
      (key : ApiKey) × (existing : ApiKeyRequest) × (before : List Call) × In key keys
      × (¬ IsRetired d key)
      × ((c.snapshot before).get_request (key_of (built_request d key).metadata) ≡ ok existing)
      × (existing.spec ≢ request_spec key)
      × (w ≡ update_request (record existing { spec = request_spec key }))

  abbrev pub IsRetirement : Call → Type 0
  IsRetirement w =
      (key : ApiKey) × In key keys
      × IsRetired d key
      × (w ≡ delete_request (tag_object_to_delete request_kind (built_request d key)))

  abbrev pub IsOrphan : Call → Type 0
  IsOrphan w =
      (request : ApiKeyRequest) × In request requests
      × ((key : ApiKey)
          → In key keys
          → key_of key.metadata ≢ client_object request.spec.api_key_ref)
      × (w ≡ delete_request request)

  abbrev pub IsDue : Call → Type 0
  IsDue w = IsCreation w ⊎ (IsUpdate w ⊎ (IsRetirement w ⊎ IsOrphan w))

module _ (d : Deps) (c : Client) where
  spec-differs :
      (existing desired : ApiKeyRequest)
      → equal_spec existing.spec desired.spec ≡ false
      → existing.spec ≢ desired.spec
  unfolding equal_spec
  spec-differs existing desired e p =
      let t = (to_bool_iff (ApiKeyRequestSpec-discrete existing.spec desired.spec)).1 p in
      ground arith

  mutated-Sends :
      (P : Call → Type 0) (existing desired : ApiKeyRequest)
      → (existing.spec ≢ desired.spec
          → P (update_request (record existing { spec = desired.spec })))
      → Sends P
          (update_if request_kind c (mutator (api_key_request_spec_mutator ∷ []) existing desired))
  unfolding update_if mutator api_key_request_spec_mutator
  mutated-Sends P existing desired f h = elim (Bool-cases (equal_spec existing.spec desired.spec)) [
    | inl e ↦ rw e same
    | inr e ↦ rw e (more (f (spec-differs existing desired e)) same)
  ]

  pub kept-Sends :
      (P : Call → Type 0) (desired : ApiKeyRequest) (r : Result ApiKeyRequest)
      → is_object_tagged_to_delete request_kind desired ≡ false
      → P (create_request desired)
      → ((existing : ApiKeyRequest)
          → r ≡ ok existing
          → existing.spec ≢ desired.spec
          → P (update_request (record existing { spec = desired.spec })))
      → Sends P
          (reconcile_read request_kind c desired (mutator (api_key_request_spec_mutator ∷ [])) r)
  unfolding reconcile_read
  kept-Sends P desired (ok existing) t p f h =
      rw t (mutated-Sends P existing desired (f existing refl) h)
  kept-Sends P desired (err e) t p f h = elim (Bool-cases (is_not_found e)) [
    | inl q ↦ rw (q, t) (more p same)
    | inr q ↦ rw q same
  ]

  pub deleted-Sends :
      (P : Call → Type 0) (desired : ApiKeyRequest) (r : Result ApiKeyRequest)
      → is_object_tagged_to_delete request_kind desired ≡ true
      → P (delete_request desired)
      → Sends P
          (reconcile_read request_kind c desired (mutator (api_key_request_spec_mutator ∷ [])) r)
  unfolding reconcile_read delete_resource
  deleted-Sends P desired (ok existing) t p h =
      elim (Bool-cases (is_some desired.deletion_timestamp)) [
        | inl q ↦ rw (t, q) same
        | inr q ↦ rw (t, q) (more p same)
      ]
  deleted-Sends P desired (err e) t p h = elim (Bool-cases (is_not_found e)) [
    | inl q ↦ rw (q, t) same
    | inr q ↦ rw q same
  ]
