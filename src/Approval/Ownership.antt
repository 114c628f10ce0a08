-- ===== src/Approval/Ownership.antt =====
-- Whom the reconcile of an APIKeyApproval makes its owner (SetControllerReference).
use developer_portal_control.Prelude.{
  Option, none, some, ◌≡◌, refl, ap, inl, inr, ◌==◌, arith, In, any, Bool-cases, Option-cases,
}
use developer_portal_control.Prelude.Outcome.{Result-cases}
use developer_portal_control.Api.Object.{ObjectMeta}
use developer_portal_control.Api.Request.{ApiKeyRequest}
use developer_portal_control.Api.Approval.{ApiKeyApproval}
use developer_portal_control.Deps.{Deps}
use developer_portal_control.Client.{Client, Call, update_approval}
use developer_portal_control.Client.Sends.{Added, same, more, Sends}
use developer_portal_control.Helper.{Context, items_or_empty}
use developer_portal_control.Approval.{
  find_request, set_owner, reconcile_found, reconcile_owner_reference,
}
use developer_portal_control.Approval.Validity.{RefersTo, find_request-some}

module _ (d : Deps) (c : Client) (ctx : Context) (approval : ApiKeyApproval) where
  -- The approval is sent back with an owner that is a listed request to which it refers and which is
  -- not being deleted, and with nothing else changed.
  abbrev pub IsOwned : Call → Type 0
  IsOwned w =
      (r : ApiKeyRequest) × (owned : ApiKeyApproval) × In r (items_or_empty ctx.api_key_requests)
      × RefersTo approval r
      × (r.deletion_timestamp ≡ none)
      × In r.uid owned.owner_references
      × (owned ≡ record approval {
        metadata = record (approval.metadata) { owner_references = owned.owner_references };
      })
      × (w ≡ update_approval owned)

  set_owner-Sends :
      (r : ApiKeyRequest)
      → In r (items_or_empty ctx.api_key_requests)
      → RefersTo approval r
      → r.deletion_timestamp ≡ none
      → Sends IsOwned (set_owner d c approval r)
  unfolding set_owner
  set_owner-Sends r i x t h =
      elim (Bool-cases (any (λ uid. uid == r.uid) approval.owner_references)) [
        | inl e ↦ rw e same
        | inr e ↦
            elim (Result-cases (d.kube.set_controller_reference r.metadata approval.metadata)) [
              | inr (z, p) ↦ rw (e, p, set_owner) same
              | inl (m, p) ↦
                  let (j, q) = d.kube.adds_owner r.metadata approval.metadata m p in
                  rw (e, p, set_owner)
                    (more
                      (
                        r,
                        record approval { metadata = m },
                        i,
                        x,
                        t,
                        j,
                        ap (λ (y : ObjectMeta). record approval { metadata = y }) q,
                        refl,
                      )
                      same)
            ]
      ]

  found-alive :
      (r : ApiKeyRequest)
      → r.deletion_timestamp ≡ none
      → reconcile_found d c approval (some r) ≡ set_owner d c approval r
  unfolding reconcile_found
  found-alive r q = ground arith

  -- All that the reconcile of one approval can write is that approval with the owner added: a
  -- listed request to which it refers and which is not being deleted. Its spec, its status and its
  -- other metadata stay as they were.
  pub owner-Sends : Sends IsOwned (reconcile_owner_reference d c ctx approval)
  unfolding reconcile_owner_reference
  owner-Sends h = go (find_request approval (items_or_empty ctx.api_key_requests)) refl
    where
      go :
          (o : Option ApiKeyRequest)
          → find_request approval (items_or_empty ctx.api_key_requests) ≡ o
          → Added IsOwned h (reconcile_found d c approval o h).1
      go none p = same
      go (some r) p = elim (Option-cases r.deletion_timestamp) [
        | inr (t, q) ↦ rw (q, reconcile_found) same
        | inl q ↦
            let (i, x) = find_request-some approval _ r p in
            rw (found-alive r q) (set_owner-Sends r i x q h)
      ]
