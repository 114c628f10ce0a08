-- ===== src/Approval/Writes.antt =====
-- What the reconcile of the statuses of the approvals writes.
use developer_portal_control.Prelude.{
  ℕ, ◌&&◌, none, List, [], ◌≡◌, refl, inl, inr, arith, In, Bool-cases, mem-keep, nat_eq,
}
use developer_portal_control.Prelude.Outcome.{ok}
use developer_portal_control.Api.Request.{ApiKeyRequest}
use developer_portal_control.Api.Approval.{ApiKeyApproval}
use developer_portal_control.Deps.{Deps}
use developer_portal_control.Client.{Client, Call, update_approval_status}
use developer_portal_control.Client.Sends.{same, more, Sends, Sends-for_each, Added-new}
use developer_portal_control.Helper.{Context, background, with_api_key_requests}
use developer_portal_control.Approval.{
  is_active_approval, calculate_status, reconcile_status, reconcile_statuses,
}

module _ (d : Deps) (c : Client) (now : ℕ) (ctx : Context) (approvals : List ApiKeyApproval) where
  -- An approval of the list that is not being deleted gets the status that is calculated for it, which
  -- it does not have yet.
  abbrev pub IsNewValidity : Call → Type 0
  IsNewValidity w =
      (a : ApiKeyApproval) × In a approvals
      × (a.deletion_timestamp ≡ none)
      × (¬ (
          (calculate_status d now ctx a ≡ a.status)
          × (a.generation ≡ a.status.observed_generation)))
      × (w ≡ update_approval_status (record a { status = calculate_status d now ctx a }))

  pub status-Sends :
      (a : ApiKeyApproval)
      → In a approvals
      → a.deletion_timestamp ≡ none
      → Sends IsNewValidity (reconcile_status d c now ctx a)
  unfolding reconcile_status
  status-Sends a i t h =
      elim (Bool-cases (
        d.kube.equal_approval_status (calculate_status d now ctx a) a.status
        && nat_eq a.generation a.status.observed_generation)) [
          | inl e ↦ rw e same
          | inr e ↦ rw e (
              more
                (
                  a,
                  i,
                  t,
                  (λ (p, q). ground (
                    arith,
                    (d.kube.equal_approval_status_iff (calculate_status d now ctx a) a.status).1 p,
                  )),
                  refl,
                )
                same)
        ]

module _ (d : Deps) (c : Client) (now : ℕ) where
  -- All that the reconcile of the statuses of the approvals writes is statuses of listed approvals
  -- that are not being deleted: each is the status that is calculated for that approval from the
  -- requests that were listed, and the approval does not have it yet, or has it for an older
  -- generation. Nothing else of an approval is changed.
  pub writes-IsNewValidity :
      (approvals : List ApiKeyApproval) (requests : List ApiKeyRequest) (w : Call)
      → (c.snapshot []).list_approvals ≡ ok approvals
      → (c.snapshot []).list_requests ≡ ok requests
      → In w (reconcile_statuses d c now []).1
      → IsNewValidity d c now (with_api_key_requests background requests) approvals w
  unfolding reconcile_statuses
  writes-IsNewValidity approvals requests w a r i =
      let ctx = with_api_key_requests background requests in
      Added-new (IsNewValidity d c now ctx approvals) w
        (Sends-for_each (IsNewValidity d c now ctx approvals) (reconcile_status d c now ctx)
          (d.lo.filter is_active_approval approvals)
          (λ x j.
            let (k, t) =
              mem-keep is_active_approval x approvals
                (rw (d.lo.filter_lem is_active_approval approvals) at j) in
            status-Sends d c now ctx approvals x k (ground arith))
          [])
        (rw (a, r) at i)
