-- ===== src/Cluster/Rest/Requests.antt =====
-- The controllers of the requests and of the approvals, when they write nothing.
use developer_portal_control.Prelude.{
  true, List, [], ◌∷◌, ◌≡◌, refl, sym, ap, ◌∙◌, inl, inr, arith, In, Bool-cases, any-some,
}
use developer_portal_control.Prelude.Outcome.{Error, Result, ok, err, is_not_found}
use developer_portal_control.Api.Object.{key_of, same_key, same_key_iff}
use developer_portal_control.Api.Key.{ApiKey}
use developer_portal_control.Api.Request.{ApiKeyRequest, client_object}
use developer_portal_control.Deps.{Deps}
use developer_portal_control.Client.{Client, delete_request}
use developer_portal_control.Client.Run.{for_each, done, no_requeue, ◌>>◌}
use developer_portal_control.Client.Sends.{same, Sends-then, Sends-for_each}
use developer_portal_control.Reconcilers.{
  reconcile_resource, reconcile_read, mutator, delete_resource, tag_object_to_delete,
}
use developer_portal_control.Request.{
  request_kind, equal_spec, request_spec, built_request, api_key_request_spec_mutator, is_current,
  reconcile_key, clean_up, reconcile,
}
use developer_portal_control.Request.Due.{IsRetired, IsDue}
use developer_portal_control.Request.Writes.{key-Sends, clean_up-Sends, tagged, desired-retired}
use developer_portal_control.Request.Step.{due_step, read_request, live_key-step}
use developer_portal_control.Cluster.Still.{
  sent-not_still, IsStill, for_each-still, query-IsStill, then-still,
}

module _ (d : Deps) (c : Client) where
  -- The request of a key, where there is to be one.
  abbrev pub HasRequest : ApiKey → Type 0
  HasRequest key =
      (r : ApiKeyRequest) × (read_request d c key [] ≡ ok r) × (r.spec ≡ request_spec key)

  -- No request of the key can be read, where there is to be none.
  abbrev pub HasNoRequest : ApiKey → Type 0
  HasNoRequest key = (e : Error) × (read_request d c key [] ≡ err e) × (is_not_found e ≡ true)

  kept :
      (key : ApiKey) (r : Result ApiKeyRequest)
      → read_request d c key [] ≡ r
      → due_step d c key [] r ≡ (ok tt, [])
      → HasRequest key
  unfolding equal_spec
  kept key (ok existing) p e = elim (Bool-cases (equal_spec existing.spec (request_spec key))) [
    | inl t ↦ (existing, p, ground arith)
    | inr f ↦ let q = ap (λ z. z.1) (rw f at e) in cc
  ]
  kept key (err x) p e = elim (Bool-cases (is_not_found x)) [
    | inl t ↦ let q = ap (λ z. z.1) (rw t at e) in cc
    | inr f ↦ let q = ap (λ z. z.0) (rw f at e) in cc
  ]

  retired :
      (key : ApiKey) (r : Result ApiKeyRequest)
      → read_request d c key [] ≡ r
      → reconcile_read request_kind c
          (tag_object_to_delete request_kind (built_request d key))
          (mutator (api_key_request_spec_mutator ∷ []))
          r
          []
        ≡ (ok tt, [])
      → HasNoRequest key
  unfolding reconcile_read delete_resource tag_object_to_delete built_request
  retired key (ok existing) p e =
      let q = ap (λ z. z.1) (rw (tagged d (built_request d key)) at e) in cc
  retired key (err x) p e = elim (Bool-cases (is_not_found x)) [
    | inl t ↦ (x, p, t)
    | inr f ↦ let q = ap (λ z. z.0) (rw f at e) in cc
  ]

  gone :
      (key : ApiKey) → IsRetired d key → reconcile_key d c key [] ≡ (ok tt, []) → HasNoRequest key
  unfolding reconcile_key reconcile_resource tag_object_to_delete
  gone key b e = retired key (read_request d c key []) refl (
      sym (
        ap
          (λ x.
            reconcile_resource request_kind c x (mutator (api_key_request_spec_mutator ∷ [])) [])
          (desired-retired d key b))
      ∙ e)

  claimed :
      (ks : List ApiKey) (r : ApiKeyRequest)
      → clean_up d c ks r [] ≡ (ok tt, [])
      → (key : ApiKey) × In key ks × (key_of key.metadata ≡ client_object r.spec.api_key_ref)
  unfolding clean_up is_current
  claimed ks r e = elim (Bool-cases (is_current ks (client_object r.spec.api_key_ref))) [
    | inl t ↦
        let (key, i, e) =
          any-some
            (λ (key : ApiKey). same_key (key_of key.metadata) (client_object r.spec.api_key_ref)) ks
            t in
        (key, i, (same_key_iff (key_of key.metadata) (client_object r.spec.api_key_ref)).0 e)
    | inr f ↦ absurd (sent-not_still c (delete_request r) (rw f at e))
  ]

  module _ (ks : List ApiKey) (rs : List ApiKeyRequest) (k : (c.snapshot []).list_keys ≡ ok ks)
      (r : (c.snapshot []).list_requests ≡ ok rs) (still : IsStill (reconcile d c)) where
    loops_still :
        (for_each (reconcile_key d c) ks [] ≡ (ok tt, []))
        × (for_each (clean_up d c ks) rs [] ≡ (ok tt, []))
    unfolding reconcile
    loops_still =
        let (q, e, n) =
          query-IsStill c (λ s. s.list_requests) _ rs r
            (query-IsStill c (λ s. s.list_keys) _ ks k still) in
        let (first, rest) =
          then-still (IsDue d c ks rs) (for_each (reconcile_key d c) ks)
            (for_each (clean_up d c ks) rs >> done no_requeue) q
            (Sends-then _ (for_each (clean_up d c ks) rs) (done no_requeue)
              (Sends-for_each _ (clean_up d c ks) rs (clean_up-Sends d c ks rs)) (λ h. same))
            e in
        (
          first,
          (then-still (IsDue d c ks rs) (for_each (clean_up d c ks) rs) (done no_requeue) q
              (λ h. same) rest).0,
        )

    key_still : (key : ApiKey) → In key ks → reconcile_key d c key [] ≡ (ok tt, [])
    key_still key i =
        for_each-still (IsDue d c ks rs) (reconcile_key d c) ks key (key-Sends d c ks rs)
          loops_still.0 i

    -- If the controller of the requests is still, each listed key has its request, or none where it is
    -- being deleted or has failed,
    pub request_at_rest : (key : ApiKey) → In key ks → ¬ IsRetired d key → HasRequest key
    request_at_rest key i alive =
        kept key (read_request d c key []) refl
          (sym (live_key-step d c key [] alive) ∙ key_still key i)

    pub no_request_at_rest : (key : ApiKey) → In key ks → IsRetired d key → HasNoRequest key
    no_request_at_rest key i b = gone key b (key_still key i)

    -- and each listed request is that of a listed key.
    pub claimed_at_rest :
        (q : ApiKeyRequest)
        → In q rs
        → (key : ApiKey) × In key ks × (key_of key.metadata ≡ client_object q.spec.api_key_ref)
    claimed_at_rest q i = claimed ks q (
        for_each-still (IsDue d c ks rs) (clean_up d c ks) rs q (clean_up-Sends d c ks rs)
          loops_still.1 i)
