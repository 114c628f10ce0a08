-- ===== src/AutoApproval/Guards.antt =====
-- When the reconcile of a request creates an approval.
use mathlib.Core.Path.{subst}
use developer_portal_control.Prelude.{
  ℕ, Bool, true, false, not, Option, none, some, List, [], ◌∷◌, ◌≡◌, ◌≢◌, refl, ◌↔◌, inl, inr, ◌==◌,
  eq_iff, eq-false, any-false, any-false_of_all, Bool-cases, Option-cases, is_some, if◌then◌else◌,
  In,
}
use developer_portal_control.Prelude.Outcome.{Result, ok, err, is_not_found, is_already_exists}
use developer_portal_control.Api.Object.{ObjectKey}
use developer_portal_control.Api.Key.{condition_pending, holds}
use developer_portal_control.Api.Request.{ApiKeyRequest}
use developer_portal_control.Api.Approval.{ApiKeyApproval}
use developer_portal_control.Api.Product.{ApiProduct}
use developer_portal_control.Deps.{Deps}
use developer_portal_control.Client.{Client, Call, create_approval}
use developer_portal_control.Client.Run.{fail, done, no_requeue, catch, perform}
use developer_portal_control.AutoApproval.{
  unless_exists, auto_approval, is_answered, create_unless_answered, with_product, with_request,
  reconcile,
}

-- No approval of the list refers to the request by name.
abbrev pub IsUnanswered : ApiKeyRequest → List ApiKeyApproval → Type 0
IsUnanswered request approvals =
    (a : ApiKeyApproval) → In a approvals → a.spec.api_key_request_ref ≢ request.name

pub answered-IsUnanswered :
    (request : ApiKeyRequest) (approvals : List ApiKeyApproval)
    → is_answered request approvals ≡ false
    → IsUnanswered request approvals
answered-IsUnanswered request approvals h a i e =
    let f =
      any-false (λ (a : ApiKeyApproval). a.spec.api_key_request_ref == request.name) a approvals h
        i in
    let t = (eq_iff a.spec.api_key_request_ref request.name).1 e in cc

IsUnanswered-answered :
    (request : ApiKeyRequest) (approvals : List ApiKeyApproval)
    → IsUnanswered request approvals
    → is_answered request approvals ≡ false
IsUnanswered-answered request approvals h =
    any-false_of_all (λ (a : ApiKeyApproval). a.spec.api_key_request_ref == request.name) approvals
      (λ a i. eq-false a.spec.api_key_request_ref request.name (h a i))

module _ (d : Deps) (c : Client) (now : ℕ) where
  -- The product of the request is there, is not being deleted, and approves automatically; and no
  -- approval in the namespace refers to the request.
  abbrev pub IsAutomatic : ApiKeyRequest → Type 0
  IsAutomatic request =
      (product : ApiProduct) × ((c.snapshot []).get_product
          (record { namespace = request.namespace; name = request.spec.api_product_ref })
        ≡ ok product)
      × (product.deletion_timestamp ≡ none)
      × (product.spec.approval_mode ≡ "automatic")
      × (approvals : List ApiKeyApproval) × ((c.snapshot []).list_approvals_in request.namespace
          ≡ ok approvals)
      × IsUnanswered request approvals

  -- The request is there, is not being deleted, and has the condition Pending with status True.
  abbrev pub IsPending : ObjectKey → ApiKeyRequest → Type 0
  IsPending req request =
      ((c.snapshot []).get_request req ≡ ok request)
      × (request.deletion_timestamp ≡ none)
      × (holds (d.meta.find request.status.conditions condition_pending) ≡ true)

  answered-calls :
      (request : ApiKeyRequest) (r : Result (Unit {0})) (h : List Call)
      → c.answer h (create_approval (auto_approval now request)) ≡ r
      → (catch
          (perform c (create_approval (auto_approval now request)))
          unless_exists
          (λ u. done no_requeue)
          h).1
        ≡ create_approval (auto_approval now request) ∷ h
  answered-calls request (ok u) h e = rw (e, catch) refl
  answered-calls request (err x) h e = elim (Bool-cases (is_already_exists x)) [
    | inl q ↦ rw (e, catch, q) refl
    | inr q ↦ rw (e, catch, q) refl
  ]

  created :
      (request : ApiKeyRequest) (w : Call) (r : Result (List ApiKeyApproval))
      → (c.snapshot []).list_approvals_in request.namespace ≡ r
      → In w (create_unless_answered d c now request []).1
      → (approvals : List ApiKeyApproval) × (r ≡ ok approvals)
        × IsUnanswered request approvals
        × (create_approval (auto_approval now request) ≡ w)
  unfolding create_unless_answered
  created request w (err x) e i = absurd (rw (e, create_unless_answered) at i)
  created request w (ok approvals) e i = elim (Bool-cases (is_answered request approvals)) [
    | inl a ↦ absurd (rw (e, a, create_unless_answered) at i)
    | inr a ↦ (
      approvals,
      refl,
      answered-IsUnanswered request approvals a,
      only (rw (e, a, create_unless_answered, answered-calls request _ [] refl) at i),
    )
  ]
    where
      only :
          In w (create_approval (auto_approval now request) ∷ [])
          → create_approval (auto_approval now request) ≡ w
      only (inl p) = p
      only (inr j) = absurd j

  creates :
      (request : ApiKeyRequest) (approvals : List ApiKeyApproval)
      → (c.snapshot []).list_approvals_in request.namespace ≡ ok approvals
      → is_answered request approvals ≡ false
      → In
          (create_approval (auto_approval now request))
          (create_unless_answered d c now request []).1
  unfolding create_unless_answered
  creates request approvals e a = rw (e, a, answered-calls request _ [] refl) (inl refl)

  product_created :
      (request : ApiKeyRequest) (w : Call) (r : Result ApiProduct)
      → (c.snapshot []).get_product
          (record { namespace = request.namespace; name = request.spec.api_product_ref })
        ≡ r
      → In w (with_product d c now request r []).1
      → IsAutomatic request × (create_approval (auto_approval now request) ≡ w)
  unfolding with_product
  product_created request w (err x) e i = absurd (nothing (is_not_found x) i)
    where
      nothing : (b : Bool) → In w ((if b then done no_requeue else fail x) []).1 → ⊥
      nothing true j = j
      nothing false j = j
  product_created request w (ok product) e i =
      automatic product.deletion_timestamp (product.spec.approval_mode == "automatic") refl refl i
    where
      automatic :
          (t : Option ℕ) (b : Bool)
          → product.deletion_timestamp ≡ t
          → (product.spec.approval_mode == "automatic") ≡ b
          → In w
              ((if is_some t
                  then done no_requeue
                  else if not b
                  then done no_requeue
                  else create_unless_answered d c now request)
                []).1
          → IsAutomatic request × (create_approval (auto_approval now request) ≡ w)
      automatic (some t) b p q j = absurd j
      automatic none false p q j = absurd j
      automatic none true p q j =
          let (approvals, l, a, made) = created request w _ refl j in
          (
            (product, e, p, (eq_iff product.spec.approval_mode "automatic").0 q, approvals, l, a),
            made,
          )

  request_created :
      (req : ObjectKey) (w : Call) (r : Result ApiKeyRequest)
      → (c.snapshot []).get_request req ≡ r
      → In w (with_request d c now r []).1
      → (request : ApiKeyRequest) × IsPending req request
        × IsAutomatic request
        × (create_approval (auto_approval now request) ≡ w)
  unfolding with_request
  request_created req w (err x) e i = absurd (nothing (is_not_found x) i)
    where
      nothing : (b : Bool) → In w ((if b then done no_requeue else fail x) []).1 → ⊥
      nothing true j = j
      nothing false j = j
  request_created req w (ok request) e i =
      pending request.deletion_timestamp
        (holds (d.meta.find request.status.conditions condition_pending)) refl refl i
    where
      pending :
          (t : Option ℕ) (b : Bool)
          → request.deletion_timestamp ≡ t
          → holds (d.meta.find request.status.conditions condition_pending) ≡ b
          → In w
              ((if is_some t
                  then done no_requeue
                  else (if not b then done no_requeue else (λ h.
                      with_product d c now request
                        ((c.snapshot h).get_product (record {
                          namespace = request.namespace;
                          name = request.spec.api_product_ref;
                        }))
                        h)))
                []).1
          → (request' : ApiKeyRequest) × IsPending req request'
            × IsAutomatic request'
            × (create_approval (auto_approval now request') ≡ w)
      pending (some t) b p q j = absurd j
      pending none false p q j = absurd j
      pending none true p q j =
          let (automatic, made) = product_created request w _ refl j in
          (request, (e, p, q), automatic, made)

  request_creates :
      (req : ObjectKey) (request : ApiKeyRequest)
      → IsPending req request
      → IsAutomatic request
      → In (create_approval (auto_approval now request)) (reconcile d c now req []).1
  unfolding reconcile
  request_creates req request (e, t, p) (product, g, u, m, approvals, l, a) =
      rw (e, with_request, t, p, g, with_product, u, m)
        (creates request approvals l (IsUnanswered-answered request approvals a))

  -- A reconcile sends a write exactly if the request is there, is not being deleted and has the
  -- condition Pending with status True, its product is there, is not being deleted and has the
  -- approval mode automatic, and no approval in the namespace refers to the request; the write
  -- creates the approval of that request by the system.
  pub reconcile-creates_iff :
      (req : ObjectKey) (w : Call)
      → In w (reconcile d c now req []).1 ↔ (
          (request : ApiKeyRequest) × IsPending req request
          × IsAutomatic request
          × (create_approval (auto_approval now request) ≡ w))
  unfolding reconcile
  reconcile-creates_iff req w = (
    λ i. request_created req w _ refl i,
    λ (request, p, a, made).
        subst (λ x. In x (reconcile d c now req []).1) made (request_creates req request p a),
  )

  -- A request without the condition Pending is left alone, also if its status has not been set yet.
  pub reconcile_skips_unset :
      (req : ObjectKey) (request : ApiKeyRequest) (h : List Call)
      → (c.snapshot h).get_request req ≡ ok request
      → d.meta.find request.status.conditions condition_pending ≡ none
      → reconcile d c now req h ≡ (ok no_requeue, h)
  unfolding reconcile
  reconcile_skips_unset req request h e p = elim (Option-cases request.deletion_timestamp) [
    | inl t ↦ rw (e, with_request, t, p)
    | inr (t, q) ↦ rw (e, with_request, q)
  ]
