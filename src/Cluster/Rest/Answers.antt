-- ===== src/Cluster/Rest/Answers.antt =====
-- The controllers of the statuses of the requests, of the owners of the approvals, and of the
-- automatic approvals, when they write nothing.
use mathlib.Core.Path.{subst}
use developer_portal_control.Prelude.{
  ℕ, String, true, none, some, List, [], ◌∷◌, ◌≡◌, refl, sym, ap, ◌∙◌, inl, inr, arith, In, any,
  ◌==◌, eq_iff, any-some, Option-cases, Bool-cases, keep-mem, if◌then◌else◌, is_some,
}
use developer_portal_control.Prelude.Outcome.{ok, Result-cases}
use developer_portal_control.Api.Object.{ObjectKey}
use developer_portal_control.Api.Key.{ApiKey}
use developer_portal_control.Api.Request.{ApiKeyRequest, client_object}
use developer_portal_control.Api.Approval.{ApiKeyApproval}
use developer_portal_control.Api.Product.{ApiProduct}
use developer_portal_control.Deps.{Deps}
use developer_portal_control.Client.{Client, create_approval}
use developer_portal_control.Client.Run.{for_each, done, no_requeue}
use developer_portal_control.Client.Sends.{same}
use developer_portal_control.Helper.{background, with_api_key_requests}
use developer_portal_control.RequestStatus.{
  sync, conditions_equal, reconcile_read, reconcile_request, reconcile as reconcile_statuses,
}
use developer_portal_control.RequestStatus.Writes.{IsCopy, request-Sends}
use developer_portal_control.Approval.{
  is_active_approval, conclude, find_request, set_owner, reconcile_found, reconcile_owner_reference,
  reconcile_owners,
}
use developer_portal_control.Approval.Ownership.{IsOwned, owner-Sends}
use developer_portal_control.AutoApproval.{
  is_answered, auto_approval, reconcile as reconcile_answer,
}
use developer_portal_control.AutoApproval.Guards.{
  IsPending, answered-IsUnanswered, reconcile-creates_iff,
}
use developer_portal_control.Approval.Validity.{
  HasDistinctKeys, RefersTo, find_request-some, find_request-none,
}
use developer_portal_control.RequestStatus.Agreement.{Matches, conditions_equal_iff}
use developer_portal_control.Access.Granted.{Added-map}
use developer_portal_control.Cluster.Still.{
  IsStill, for_each-still, query-IsStill, then-still, conclude-still,
}

-- If the controller of the statuses of the requests is still, the conditions of each listed request
-- count as equal to those of its key, where that is there and not being deleted.
pub copied_at_rest :
    (c : Client) (rs : List ApiKeyRequest) (r : ApiKeyRequest) (key : ApiKey)
    → (c.snapshot []).list_requests ≡ ok rs
    → IsStill (reconcile_statuses c)
    → In r rs
    → (c.snapshot []).get_key (client_object r.spec.api_key_ref) ≡ ok key
    → key.deletion_timestamp ≡ none
    → Matches key.status.conditions r.status.conditions
unfolding reconcile_statuses reconcile_request sync
copied_at_rest c rs r key l still i g t =
    let (q, e, n) = query-IsStill c (λ s. s.list_requests) _ rs l still in
    let step =
      for_each-still (IsCopy c rs) (reconcile_request c) rs r (request-Sends c rs)
        (then-still (IsCopy c rs) (for_each (reconcile_request c) rs) (done no_requeue) q
          (λ h. same) e).0
        i in
    elim (Bool-cases (conditions_equal key.status.conditions r.status.conditions)) [
      | inl p ↦ (conditions_equal_iff key.status.conditions r.status.conditions).0 p
      | inr p ↦ let w = ap (λ z. z.1) (rw (g, reconcile_read, t, p) at step) in cc
    ]

-- Where requests are told apart by namespace and name, the search finds the one that is referred to.
find_request-eq :
    (a : ApiKeyApproval) (rs : List ApiKeyRequest) (r : ApiKeyRequest)
    → HasDistinctKeys rs
    → In r rs
    → RefersTo a r
    → find_request a rs ≡ some r
find_request-eq a rs r distinct i refers = elim (Option-cases (find_request a rs)) [
  | inl e ↦ absurd (find_request-none a rs r e i refers)
  | inr (q, e) ↦
      let (j, (n, m)) = find_request-some a rs q e in
      e ∙ ap some (distinct q r j i (n ∙ sym refers.0) (m ∙ sym refers.1))
]

any-In : (uid : String) (owners : List String) → any (λ o. o == uid) owners ≡ true → In uid owners
any-In uid [] e = cc
any-In uid (o ∷ owners) e = elim (Bool-cases (o == uid)) [
  | inl t ↦ inl ((eq_iff o uid).0 t)
  | inr f ↦ inr (any-In uid owners (ground arith))
]

module _ (d : Deps) (c : Client) where
  owned :
      (a : ApiKeyApproval) (r : ApiKeyRequest)
      → set_owner d c a r [] ≡ (ok tt, [])
      → In r.uid a.owner_references
  unfolding set_owner
  owned a r e = elim (Bool-cases (any (λ uid. uid == r.uid) a.owner_references)) [
    | inl t ↦ any-In r.uid a.owner_references t
    | inr f ↦ elim (Result-cases (d.kube.set_controller_reference r.metadata a.metadata)) [
      | inl (m, p) ↦ let w = ap (λ z. z.1) (rw (f, p) at e) in cc
      | inr (x, p) ↦ let w = ap (λ z. z.0) (rw (f, p) at e) in cc
    ]
  ]

  -- If the controller of the approvals is still, the request that a listed approval refers to owns
  -- it, where neither is being deleted.
  pub owned_at_rest :
      (as' : List ApiKeyApproval) (rs : List ApiKeyRequest) (a : ApiKeyApproval) (r : ApiKeyRequest)
      → (c.snapshot []).list_approvals ≡ ok as'
      → (c.snapshot []).list_requests ≡ ok rs
      → IsStill (reconcile_owners d c)
      → In a as'
      → a.deletion_timestamp ≡ none
      → HasDistinctKeys rs
      → In r rs
      → RefersTo a r
      → r.deletion_timestamp ≡ none
      → In r.uid a.owner_references
  unfolding reconcile_owners reconcile_owner_reference reconcile_found
  owned_at_rest as' rs a r p l still i t distinct j refers u =
      let f = find_request-eq a rs r distinct j refers in
      let ctx = with_api_key_requests background rs in
      let step =
        for_each-still (λ w. (b : ApiKeyApproval) × IsOwned d c ctx b w)
          (reconcile_owner_reference d c ctx) (d.lo.filter is_active_approval as') a
          (λ b j h. Added-map (λ w o. (b, o)) (owner-Sends d c ctx b h))
          (conclude-still
            (for_each (reconcile_owner_reference d c ctx) (d.lo.filter is_active_approval as'))
            (query-IsStill c (λ s. s.list_requests)
              (λ rs. conclude (
                for_each (reconcile_owner_reference d c (with_api_key_requests background rs))
                  (d.lo.filter is_active_approval as')))
              rs l (query-IsStill c (λ s. s.list_approvals) _ as' p still)))
          (rw (d.lo.filter_lem is_active_approval as')
            (keep-mem is_active_approval a as' i (ground arith))) in
      let found : reconcile_found d c a (some r) [] ≡ (ok tt, []) = rw f at step in
      owned a r (
        subst (λ b. (if b then done tt else set_owner d c a r) [] ≡ (ok tt, [])) (ap is_some u)
          found)

  -- If the controller of the automatic approvals is still, a pending request is answered, where its
  -- product approves automatically and neither is being deleted.
  pub answered_at_rest :
      (now : ℕ) (req : ObjectKey) (r : ApiKeyRequest) (p : ApiProduct) (as' : List ApiKeyApproval)
      → IsStill (reconcile_answer d c now req)
      → IsPending d c now req r
      → (c.snapshot []).get_product
          (record { namespace = r.namespace; name = r.spec.api_product_ref })
        ≡ ok p
      → p.deletion_timestamp ≡ none
      → p.spec.approval_mode ≡ "automatic"
      → (c.snapshot []).list_approvals_in r.namespace ≡ ok as'
      → (a : ApiKeyApproval) × In a as' × (a.spec.api_key_request_ref ≡ r.name)
  answered_at_rest now req r p as' (q, e, n) pending g t m l =
      elim (Bool-cases (is_answered r as')) [
        | inl y ↦
            let (a, i, e) =
              any-some (λ (a : ApiKeyApproval). a.spec.api_key_request_ref == r.name) as' y in
            (a, i, (eq_iff a.spec.api_key_request_ref r.name).0 e)
        | inr f ↦
            let i =
              (reconcile-creates_iff d c now req (create_approval (auto_approval now r))).1
                (r, pending, (p, g, t, m, as', l, answered-IsUnanswered r as' f), refl) in
            absurd (rw e at i)
      ]
