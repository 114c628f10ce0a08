-- ===== src/Request/Writes.antt =====
-- What the reconcile of the requests writes.
use mathlib.Core.Path.{subst}
use developer_portal_control.Prelude.{
  true, false, ◌||◌, List, [], ◌∷◌, ◌≡◌, ◌≢◌, refl, sym, inl, inr, arith, In, any-true, Bool-cases,
  is_some,
}
use developer_portal_control.Prelude.Outcome.{Result, ok, err, is_not_found}
use developer_portal_control.Api.Object.{ObjectKey, key_of, same_key, same_key_iff}
use developer_portal_control.Api.Key.{ApiKey}
use developer_portal_control.Api.Request.{ApiKeyRequest, client_object}
use developer_portal_control.Deps.{Deps}
use developer_portal_control.Client.{Client, Call, delete_request}
use developer_portal_control.Client.Run.{for_each, done, no_requeue, perform, catch, ◌>>◌}
use developer_portal_control.Client.Sends.{
  Added, same, more, Sends, Sends-then, Sends-for_each, Added-new,
}
use developer_portal_control.Reconcilers.{
  reconcile_resource, mutator, is_object_tagged_to_delete, tag_object_to_delete,
}
use developer_portal_control.Request.{
  request_kind, api_key_request_spec_mutator, request_spec, is_failed_state, built_request,
  desired_request, is_current, reconcile_key, clean_up, reconcile, ignore_not_found,
}
use developer_portal_control.Request.Due.{IsRetired, IsDue, kept-Sends, deleted-Sends}

module _ (d : Deps) where
  pub tagged :
      (r : ApiKeyRequest)
      → is_object_tagged_to_delete request_kind (tag_object_to_delete request_kind r) ≡ true
  unfolding is_object_tagged_to_delete tag_object_to_delete
  tagged r = refl

  pub not_tagged :
      (key : ApiKey) → is_object_tagged_to_delete request_kind (built_request d key) ≡ false
  unfolding is_object_tagged_to_delete built_request
  not_tagged key = refl

  pub desired-retired :
      (key : ApiKey)
      → IsRetired d key
      → desired_request d key ≡ tag_object_to_delete request_kind (built_request d key)
  unfolding desired_request
  desired-retired key e = rw e refl

  pub desired-alive :
      (key : ApiKey)
      → (is_some key.deletion_timestamp || is_failed_state d key) ≡ false
      → desired_request d key ≡ built_request d key
  unfolding desired_request
  desired-alive key e = rw e refl

  built-spec : (key : ApiKey) → (built_request d key).spec ≡ request_spec key
  unfolding built_request
  built-spec key = refl

module _ (d : Deps) (c : Client) (keys : List ApiKey) (requests : List ApiKeyRequest) where
  resource-Sends :
      (P : Call → Type 0) (desired : ApiKeyRequest) (m : ApiKeyRequest)
      → m ≡ desired
      → Sends P
          (reconcile_resource request_kind c desired (mutator (api_key_request_spec_mutator ∷ [])))
      → Sends P (reconcile_resource request_kind c m (mutator (api_key_request_spec_mutator ∷ [])))
  resource-Sends P desired m e s =
      subst
        (λ x.
          Sends P
            (reconcile_resource request_kind c x (mutator (api_key_request_spec_mutator ∷ []))))
        (sym e) s

  alive-Sends :
      (key : ApiKey)
      → In key keys
      → (is_some key.deletion_timestamp || is_failed_state d key) ≡ false
      → Sends (IsDue d c keys requests) (
          reconcile_resource request_kind c
            (built_request d key)
            (mutator (api_key_request_spec_mutator ∷ [])))
  unfolding reconcile_resource built_request
  alive-Sends key i a h =
      kept-Sends d c (IsDue d c keys requests) (built_request d key) _ (not_tagged d key)
        (inl (key, i, alive, refl))
        (λ existing e n. inr (inl (key, existing, h, i, alive, e, n, refl))) h
    where
      alive : ¬ IsRetired d key
      alive b = ground arith

  retired-Sends :
      (key : ApiKey)
      → In key keys
      → IsRetired d key
      → Sends (IsDue d c keys requests) (
          reconcile_resource request_kind c
            (tag_object_to_delete request_kind (built_request d key))
            (mutator (api_key_request_spec_mutator ∷ [])))
  unfolding reconcile_resource tag_object_to_delete
  retired-Sends key i b h =
      deleted-Sends d c (IsDue d c keys requests)
        (tag_object_to_delete request_kind (built_request d key))
        ((c.snapshot h).get_request (key_of (built_request d key).metadata))
        (tagged d (built_request d key)) (inr (inr (inl (key, i, b, refl)))) h

  pub key-Sends :
      (key : ApiKey) → In key keys → Sends (IsDue d c keys requests) (reconcile_key d c key)
  unfolding reconcile_key
  key-Sends key i = elim (Bool-cases (is_some key.deletion_timestamp || is_failed_state d key)) [
    | inl b ↦
        resource-Sends (IsDue d c keys requests) _ (desired_request d key) (desired-retired d key b)
          (retired-Sends key i b)
    | inr a ↦
        resource-Sends (IsDue d c keys requests) _ (desired_request d key) (desired-alive d key a)
          (alive-Sends key i a)
  ]

  not_current :
      (k : ObjectKey)
      → is_current keys k ≡ false
      → (key : ApiKey) → In key keys
      → key_of key.metadata ≢ k
  unfolding is_current
  not_current k e key i p =
      let t =
        any-true (λ (x : ApiKey). same_key (key_of x.metadata) k) key keys i
          ((same_key_iff (key_of key.metadata) k).1 p) in
      ground arith

  answered-Sends :
      (P : Call → Type 0) (w : Call) (r : Result (Unit {0})) (h : List Call)
      → P w
      → c.answer h w ≡ r
      → Added P h (catch (perform c w) ignore_not_found done h).1
  answered-Sends P w (ok u) h p e = rw (e, catch) (more p same)
  answered-Sends P w (err x) h p e = elim (Bool-cases (is_not_found x)) [
    | inl q ↦ rw (e, catch, q) (more p same)
    | inr q ↦ rw (e, catch, q) (more p same)
  ]

  pub clean_up-Sends :
      (request : ApiKeyRequest)
      → In request requests
      → Sends (IsDue d c keys requests) (clean_up d c keys request)
  unfolding clean_up
  clean_up-Sends request i h =
      elim (Bool-cases (is_current keys (client_object request.spec.api_key_ref))) [
        | inl e ↦ rw e same
        | inr e ↦ rw e (
            answered-Sends (IsDue d c keys requests) (delete_request request) _ h
              (inr (inr (inr (request, i, not_current _ e, refl)))) refl)
      ]

  -- Every write of the reconcile creates the request of a listed key that is neither being deleted nor
  -- failed, or gives the key's specification to the request that was read for such a key and had
  -- another one, changing nothing else, or deletes the request of a listed key that is being deleted
  -- or has failed, or deletes a listed request that refers to no listed key.
  pub writes-IsDue :
      (w : Call)
      → (c.snapshot []).list_keys ≡ ok keys
      → (c.snapshot []).list_requests ≡ ok requests
      → In w (reconcile d c []).1
      → IsDue d c keys requests w
  unfolding reconcile
  writes-IsDue w k r i = Added-new (IsDue d c keys requests) w (loops []) (rw (k, r) at i)
    where
      loops : Sends (IsDue d c keys requests) (
          for_each (reconcile_key d c) keys
          >> (for_each (clean_up d c keys) requests >> done no_requeue))
      loops = Sends-then _ (for_each (reconcile_key d c) keys) _ (Sends-for_each _ _ _ key-Sends) (
          Sends-then _ (for_each (clean_up d c keys) requests) (done no_requeue)
            (Sends-for_each _ _ _ clean_up-Sends) (λ h. same))
