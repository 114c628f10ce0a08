-- ===== src/Approval/Validity.antt =====
-- When an approval is valid, and that its status settles.
use mathlib.Core.Path.{subst}
use developer_portal_control.Prelude.{
  ℕ, true, ◌&&◌, Option, none, some, List, [], ◌∷◌, ◌≡◌, refl, sym, ap, ◌∙◌, ◌↔◌, inl, inr, ◌==◌,
  eq_iff, eq_refl, arith, In, Bool-cases,
}
use developer_portal_control.Prelude.Outcome.{ok}
use developer_portal_control.Meta.{Condition, merged, is_status_true}
use developer_portal_control.Meta.Sequence.{merged-merged}
use developer_portal_control.Api.Key.{holds}
use developer_portal_control.Api.Request.{ApiKeyRequest}
use developer_portal_control.Api.Approval.{ApiKeyApproval, ApiKeyApprovalStatus, condition_valid}
use developer_portal_control.Deps.{Deps}
use developer_portal_control.Client.{Client, Call}
use developer_portal_control.Helper.{Context, items_or_empty}
use developer_portal_control.Approval.{
  find_request, validity_of, calculate_valid_condition, calculate_status, reconcile_status,
}

-- The request has the namespace of the approval and the name that it refers to.
abbrev pub RefersTo : ApiKeyApproval → ApiKeyRequest → Type 0
RefersTo approval r =
    (r.namespace ≡ approval.namespace) × (r.name ≡ approval.spec.api_key_request_ref)

-- Requests are told apart by namespace and name, as objects of one kind are in a cluster.
abbrev pub HasDistinctKeys : List ApiKeyRequest → Type 0
HasDistinctKeys rs =
    (r q : ApiKeyRequest) → In r rs → In q rs → r.namespace ≡ q.namespace → r.name ≡ q.name → r ≡ q

module _ (approval : ApiKeyApproval) where
  pub find_request-some :
      (rs : List ApiKeyRequest) (r : ApiKeyRequest)
      → find_request approval rs ≡ some r
      → In r rs × RefersTo approval r
  unfolding find_request
  find_request-some [] r e = cc
  find_request-some (q ∷ rs) r e =
      elim (Bool-cases
        (q.namespace == approval.namespace && q.name == approval.spec.api_key_request_ref)) [
          | inl h ↦
              let p : q ≡ r = ground arith in
              (
                inl p,
                subst (RefersTo approval) p (
                    ground (
                      arith,
                      eq_iff q.namespace approval.namespace,
                      eq_iff q.name approval.spec.api_key_request_ref,
                    )),
              )
          | inr h ↦ let (i, x) = find_request-some rs r (ground arith) in (inr i, x)
        ]

  pub find_request-none :
      (rs : List ApiKeyRequest) (r : ApiKeyRequest)
      → find_request approval rs ≡ none
      → In r rs
      → ¬ RefersTo approval r
  unfolding find_request
  find_request-none [] r e i x = absurd i
  find_request-none (q ∷ rs) r e (inl p) x =
      let (a, b) = subst (RefersTo approval) (sym p) x in
      ground (
        arith,
        eq_iff q.namespace approval.namespace,
        eq_iff q.name approval.spec.api_key_request_ref,
      )
  find_request-none (q ∷ rs) r e (inr i) x = find_request-none rs r (ground arith) i x

  validity-holds :
      (o : Option ApiKeyRequest)
      → (is_status_true (validity_of approval o).status ≡ true)
        ↔ ((r : ApiKeyRequest) × (o ≡ some r) × (r.deletion_timestamp ≡ none))
  unfolding validity_of
  validity-holds none = (λ h. cc, λ (r, e, t). cc)
  validity-holds (some r) = (
    λ h. (r, refl, ground arith),
    λ (q, e, t).
        let p : r ≡ q = ground arith in
        ground (arith, subst (λ (x : ApiKeyRequest). x.deletion_timestamp ≡ none) (sym p) t),
  )

  validity-type : (o : Option ApiKeyRequest) → (validity_of approval o).type ≡ condition_valid
  unfolding validity_of
  validity-type none = refl
  validity-type (some r) = ground arith

holds-merged :
    (now : ℕ) (o : Option Condition) (c : Condition)
    → holds (some (merged now o c)) ≡ is_status_true c.status
holds-merged now none c = refl
holds-merged now (some b) c = refl

module _ (d : Deps) (now : ℕ) (ctx : Context) (approval : ApiKeyApproval) where
  valid-type : (calculate_valid_condition ctx approval).type ≡ condition_valid
  unfolding calculate_valid_condition
  valid-type = validity-type approval (find_request approval (items_or_empty ctx.api_key_requests))

  status-find :
      d.meta.find (calculate_status d now ctx approval).conditions condition_valid
      ≡ some (
          merged now
            (d.meta.find approval.status.conditions condition_valid)
            (calculate_valid_condition ctx approval))
  unfolding calculate_status
  status-find = ground (
    arith,
    d.meta.find-set now approval.status.conditions (calculate_valid_condition ctx approval)
        condition_valid,
    valid-type,
    ap (λ t. d.meta.find approval.status.conditions t) valid-type,
    eq_iff (calculate_valid_condition ctx approval).type condition_valid,
  )

  -- In a cluster, where a namespace and a name are those of one request, an approval gets the
  -- condition Valid with status True exactly if a listed request that it refers to in its own
  -- namespace is not being deleted.
  pub status-valid_iff :
      HasDistinctKeys (items_or_empty ctx.api_key_requests)
      → (holds (d.meta.find (calculate_status d now ctx approval).conditions condition_valid)
          ≡ true)
        ↔ ((r : ApiKeyRequest) × In r (items_or_empty ctx.api_key_requests)
            × RefersTo approval r
            × (r.deletion_timestamp ≡ none))
  unfolding calculate_valid_condition
  status-valid_iff distinct =
      let rs = items_or_empty ctx.api_key_requests in
      let e = ap holds status-find ∙ holds-merged now _ (calculate_valid_condition ctx approval) in
      let (there, back) = validity-holds approval (find_request approval rs) in
      (
        λ h.
            let (r, p, t) = there (sym e ∙ h) in
            let (i, x) = find_request-some approval rs r p in (r, i, x, t),
        λ (r, i, x, t). e ∙ back (found r i x t (find_request approval rs) refl),
      )
    where
      found :
          (r : ApiKeyRequest)
          → In r (items_or_empty ctx.api_key_requests)
          → RefersTo approval r
          → r.deletion_timestamp ≡ none
          → (o : Option ApiKeyRequest)
          → find_request approval (items_or_empty ctx.api_key_requests) ≡ o
          → (q : ApiKeyRequest) × (o ≡ some q) × (q.deletion_timestamp ≡ none)
      found r i x t none p = absurd (find_request-none approval _ r p i x)
      found r i x t (some q) p =
          let (j, y) = find_request-some approval _ q p in
          (
            q,
            refl,
            subst (λ (z : ApiKeyRequest). z.deletion_timestamp ≡ none)
                (distinct r q i j (x.0 ∙ sym y.0) (x.1 ∙ sym y.1)) t,
          )

module _ (d : Deps) (ctx : Context) (approval : ApiKeyApproval) (now later : ℕ) where
  -- The approval with the status that was calculated for it.
  abbrev pub written : ApiKeyApproval
  written = record approval { status = calculate_status d now ctx approval }

  find_request-written :
      (rs : List ApiKeyRequest) → find_request written rs ≡ find_request approval rs
  unfolding find_request
  find_request-written [] = refl
  find_request-written (r ∷ rs) = ground (arith, find_request-written rs)

  same-condition : calculate_valid_condition ctx written ≡ calculate_valid_condition ctx approval
  unfolding calculate_valid_condition
  same-condition =
      ap (validity_of approval) (find_request-written (items_or_empty ctx.api_key_requests))

  calculated_again : calculate_status d later ctx written ≡ calculate_status d now ctx approval
  unfolding calculate_status
  calculated_again =
      ap
        (λ x.
          let s : ApiKeyApprovalStatus = record {
            observed_generation = approval.generation;
            conditions = x;
          } in
          s)
        (ap (d.meta.set later (d.meta.set now approval.status.conditions v)) same-condition
          ∙ d.meta.set_stable later (d.meta.set now approval.status.conditions v) v (
              subst (λ x. x ≡ some (merged later x v)) (sym there)
                (ap some (
                  sym
                    (merged-merged now later (d.meta.find approval.status.conditions v.type) v)))))
    where
      v : Condition
      v = calculate_valid_condition ctx approval

      there :
          d.meta.find (d.meta.set now approval.status.conditions v) v.type
          ≡ some (merged now (d.meta.find approval.status.conditions v.type) v)
      there = rw (d.meta.find-set now approval.status.conditions v v.type, eq_refl v.type) refl

  -- An approval whose calculated status has been written is not written again at any later time, as
  -- long as the requests are the same.
  pub approval_settles :
      (c : Client) (h : List Call) → reconcile_status d c later ctx written h ≡ (ok tt, h)
  unfolding reconcile_status
  approval_settles c h = rw calculated_again (
      ground (
        arith,
        (d.kube.equal_approval_status_iff (calculate_status d now ctx approval)
              (calculate_status d now ctx approval)).1
            refl,
      ))
