-- ===== src/KeyStatus/Writes.antt =====
-- What the reconcile of the statuses of the keys writes.
use developer_portal_control.Prelude.{
  ℕ, ◌&&◌, none, List, [], ◌∷◌, ◌≡◌, refl, inl, inr, arith, In, Bool-cases, mem-keep, nat_eq,
}
use developer_portal_control.Prelude.Outcome.{ok, Result-cases}
use developer_portal_control.Api.Key.{ApiKey, ApiKeyStatus}
use developer_portal_control.Api.Request.{ApiKeyRequest}
use developer_portal_control.Api.Approval.{ApiKeyApproval}
use developer_portal_control.Deps.{Deps}
use developer_portal_control.Client.{Client, Call, update_key_status}
use developer_portal_control.Client.Sends.{same, more, Sends, Added-trans, Added-new}
use developer_portal_control.Helper.{
  Context, background, with_api_keys, with_api_key_requests, with_api_key_approvals,
}
use developer_portal_control.KeyStatus.Status.{calculate_status}
use developer_portal_control.KeyStatus.Reconcile.{
  write_status, reconcile_status, reconcile_keys, reconcile, is_active,
}

module _ (d : Deps) (c : Client) (ctx : Context) (now : ℕ) (keys : List ApiKey) where
  -- A key of the list that is not being deleted gets the status that is calculated for it from what
  -- the cluster holds then, which it does not have yet; the rest of the key is as it was read.
  abbrev pub IsNewStatus : Call → Type 0
  IsNewStatus w =
      (key : ApiKey) × (h : List Call) × (status : ApiKeyStatus) × In key keys
      × (key.deletion_timestamp ≡ none)
      × (calculate_status d (c.snapshot h) ctx key now ≡ ok status)
      × (¬ ((status ≡ key.status) × (key.generation ≡ key.status.observed_generation)))
      × (w ≡ update_key_status (record key { status = status }))

  status-Sends :
      (key : ApiKey)
      → In key keys
      → key.deletion_timestamp ≡ none
      → Sends IsNewStatus (reconcile_status d c ctx now key)
  unfolding reconcile_status write_status
  status-Sends key i a h = elim (Result-cases (calculate_status d (c.snapshot h) ctx key now)) [
    | inr (x, e) ↦ rw e same
    | inl (status, e) ↦
        elim (Bool-cases (
          d.kube.equal_key_status status key.status
          && nat_eq key.generation key.status.observed_generation)) [
            | inl t ↦ rw (e, t) same
            | inr f ↦
                rw (e, f)
                  (more
                    (
                      key,
                      h,
                      status,
                      i,
                      a,
                      e,
                      (λ (p, q).
                          ground (arith, (d.kube.equal_key_status_iff status key.status).1 p)),
                      refl,
                    )
                    same)
          ]
  ]

  pub keys-Sends :
      (active : List ApiKey) (after : ℕ)
      → ((key : ApiKey) → In key active → In key keys × (key.deletion_timestamp ≡ none))
      → Sends IsNewStatus (reconcile_keys d c ctx now after active)
  unfolding reconcile_keys
  keys-Sends [] after all h = same
  keys-Sends (key ∷ active) after all h =
      let (i, a) = all key (inl refl) in
      let first = status-Sends key i a h in
      elim (Result-cases (reconcile_status d c ctx now key h).0) [
        | inr (x, e) ↦ rw (e, reconcile_keys) first
        | inl (u, e) ↦
            rw (e, reconcile_keys)
              (Added-trans IsNewStatus first
                (keys-Sends active _ (λ k j. all k (inr j)) (reconcile_status d c ctx now key h).1))
      ]

module _ (d : Deps) (c : Client) (now : ℕ) where
  -- All that the reconcile of the statuses of the keys writes is statuses of listed keys that are not
  -- being deleted: each is the status that is calculated for that key, from the requests and the
  -- approvals that were listed and from what the cluster holds then, and the key does not have it
  -- yet, or has it for an older generation. Nothing else of a key is changed.
  pub writes-IsNewStatus :
      (keys : List ApiKey) (requests : List ApiKeyRequest) (approvals : List ApiKeyApproval)
      (w : Call)
      → (c.snapshot []).list_keys ≡ ok keys
      → (c.snapshot []).list_requests ≡ ok requests
      → (c.snapshot []).list_approvals ≡ ok approvals
      → In w (reconcile d c now []).1
      → IsNewStatus d c
          (with_api_key_approvals
            (with_api_key_requests (with_api_keys background keys) requests)
            approvals)
          now
          keys
          w
  unfolding reconcile
  writes-IsNewStatus keys requests approvals w k r a i =
      let ctx =
        with_api_key_approvals (with_api_key_requests (with_api_keys background keys) requests)
          approvals in
      Added-new (IsNewStatus d c ctx now keys) w
        (keys-Sends d c ctx now keys (d.lo.filter is_active keys) 0 listed []) (rw (k, r, a) at i)
    where
      listed :
          (key : ApiKey)
          → In key (d.lo.filter is_active keys)
          → In key keys × (key.deletion_timestamp ≡ none)
      listed key j =
          let (i, t) = mem-keep is_active key keys (rw (d.lo.filter_lem is_active keys) at j) in
          (i, ground arith)
