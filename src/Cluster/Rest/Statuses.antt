-- ===== src/Cluster/Rest/Statuses.antt =====
-- The controllers of the statuses, when they write nothing.
use mathlib.Core.Path.{subst}
use developer_portal_control.Prelude.{
  ℕ, true, false, ◌&&◌, none, List, [], ◌∷◌, ◌≡◌, ap, ◌∙◌, inl, inr, arith, In, Bool-cases,
  keep-mem, mem-keep, nat_eq,
}
use developer_portal_control.Prelude.Outcome.{Error, ok, Result-cases, is_conflict}
use developer_portal_control.Api.Key.{ApiKey}
use developer_portal_control.Api.Request.{ApiKeyRequest}
use developer_portal_control.Api.Approval.{ApiKeyApproval}
use developer_portal_control.Deps.{Deps}
use developer_portal_control.Client.{Client}
use developer_portal_control.Client.Run.{Requeue, requeue_on_conflict, for_each}
use developer_portal_control.Client.Sends.{Added}
use developer_portal_control.Helper.{
  Context, background, with_api_keys, with_api_key_requests, with_api_key_approvals,
}
use developer_portal_control.KeyStatus.Status.{calculate_status}
use developer_portal_control.KeyStatus.Reconcile.{
  write_status, reconcile_status, reconcile_keys, reconcile, is_active,
}
use developer_portal_control.KeyStatus.Writes.{keys-Sends, IsNewStatus}
use developer_portal_control.Approval.{
  is_active_approval, conclude, calculate_status as calculate_validity,
  reconcile_status as reconcile_validity, reconcile_statuses,
}
use developer_portal_control.Approval.Writes.{IsNewValidity, status-Sends as validity-Sends}
use developer_portal_control.Api.External.{PlanPolicy, AuthPolicy}
use developer_portal_control.Api.Product.{ApiProduct}
use developer_portal_control.Product.Web.{Web}
use developer_portal_control.Product.Status.{calculate_status as calculate_product}
use developer_portal_control.Product.Reconcile.{
  is_active_product, with_plan_policies, with_auth_policies, write_status as write_product,
  reconcile_status as reconcile_product, reconcile as reconcile_products,
}
use developer_portal_control.Product.Writes.{IsNewState, status-Sends as product-Sends}
use developer_portal_control.Cluster.Still.{
  conclude-still, for_each-still, IsStill, Added-nil, query-IsStill,
}

requeued : (e : Error) (r : Requeue) → requeue_on_conflict e ≡ ok r → r.again ≡ true
requeued e r p = elim (Bool-cases (is_conflict e)) [ inl t ↦ ground arith | inr f ↦ ground arith ]

module _ (d : Deps) (c : Client) (now : ℕ) (ctx : Context) (ks : List ApiKey) where
  key_current :
      (key : ApiKey)
      → reconcile_status d c ctx now key [] ≡ (ok tt, [])
      → (calculate_status d (c.snapshot []) ctx key now ≡ ok key.status)
        × (key.generation ≡ key.status.observed_generation)
  unfolding reconcile_status write_status
  key_current key e = elim (Result-cases (calculate_status d (c.snapshot []) ctx key now)) [
    | inr (x, p) ↦ let q = ap (λ z. z.0) (rw p at e) in cc
    | inl (status, p) ↦
        elim (Bool-cases (
          d.kube.equal_key_status status key.status
          && nat_eq key.generation key.status.observed_generation)) [
            | inr f ↦ let q = ap (λ z. z.1) (rw (p, f) at e) in cc
            | inl t ↦
                let same = (d.kube.equal_key_status_iff status key.status).0 (ground arith) in
                (p ∙ ap ok same, ground arith)
          ]
  ]

  loop_still :
      (active : List ApiKey) (after : ℕ) (r : Requeue) (key : ApiKey)
      → ((k : ApiKey) → In k active → In k ks × (k.deletion_timestamp ≡ none))
      → reconcile_keys d c ctx now after active [] ≡ (ok r, [])
      → r.again ≡ false
      → In key active
      → reconcile_status d c ctx now key [] ≡ (ok tt, [])
  unfolding reconcile_keys
  loop_still [] after r key all e n i = absurd i
  loop_still (k ∷ active) after r key all e n i =
      elim (Result-cases (reconcile_status d c ctx now k []).0) [
        | inr (x, p) ↦
            let q = requeued x r (ap (λ z. z.0) (rw (p, reconcile_keys) at e)) in
            absurd (ground arith)
        | inl (u, p) ↦
            let rest = rw (p, reconcile_keys) at e in
            let nothing = Added-nil (IsNewStatus d c ctx now ks) (
              subst
                (λ z. Added (IsNewStatus d c ctx now ks) (reconcile_status d c ctx now k []).1 z)
                (ap (λ z. z.1) rest)
                (keys-Sends d c ctx now ks active _ (λ y j. all y (inr j))
                  (reconcile_status d c ctx now k []).1)) in
            elim i [
              | inl same ↦
                  subst (λ z. reconcile_status d c ctx now z [] ≡ (ok tt, [])) same
                    (λ t. (p t, nothing t))
              | inr j ↦ loop_still active _ r key (λ y l. all y (inr l)) (rw nothing at rest) n j
            ]
      ]

module _ (d : Deps) (c : Client) (now : ℕ) where
  -- If the controller of the statuses of the keys is still, each listed key that is not being deleted
  -- has the status that is calculated for it, for its generation.
  pub keys_at_rest :
      (ks : List ApiKey) (rs : List ApiKeyRequest) (as' : List ApiKeyApproval) (key : ApiKey)
      → (c.snapshot []).list_keys ≡ ok ks
      → (c.snapshot []).list_requests ≡ ok rs
      → (c.snapshot []).list_approvals ≡ ok as'
      → IsStill (reconcile d c now)
      → In key ks
      → key.deletion_timestamp ≡ none
      → (calculate_status d
            (c.snapshot [])
            (with_api_key_approvals (with_api_key_requests (with_api_keys background ks) rs) as')
            key
            now
          ≡ ok key.status)
        × (key.generation ≡ key.status.observed_generation)
  unfolding reconcile
  keys_at_rest ks rs as' key k r a still i t =
      let ctx =
        with_api_key_approvals (with_api_key_requests (with_api_keys background ks) rs) as' in
      let (q, e, n) =
        query-IsStill c (λ s. s.list_approvals) _ as' a
          (query-IsStill c (λ s. s.list_requests) _ rs r
            (query-IsStill c (λ s. s.list_keys) _ ks k still)) in
      key_current d c now ctx ks key (
        loop_still d c now ctx ks (d.lo.filter is_active ks) 0 q key listed e n
          (rw (d.lo.filter_lem is_active ks) (keep-mem is_active key ks i (ground arith))))
    where
      listed :
          (y : ApiKey) → In y (d.lo.filter is_active ks) → In y ks × (y.deletion_timestamp ≡ none)
      listed y j =
          let (i, t) = mem-keep is_active y ks (rw (d.lo.filter_lem is_active ks) at j) in
          (i, ground arith)

  pub approvals_at_rest :
      (as' : List ApiKeyApproval) (rs : List ApiKeyRequest) (a : ApiKeyApproval)
      → (c.snapshot []).list_approvals ≡ ok as'
      → (c.snapshot []).list_requests ≡ ok rs
      → IsStill (reconcile_statuses d c now)
      → In a as'
      → a.deletion_timestamp ≡ none
      → (calculate_validity d now (with_api_key_requests background rs) a ≡ a.status)
        × (a.generation ≡ a.status.observed_generation)
  unfolding reconcile_statuses reconcile_validity
  approvals_at_rest as' rs a p r still i t =
      let ctx = with_api_key_requests background rs in
      let loop = for_each (reconcile_validity d c now ctx) (d.lo.filter is_active_approval as') in
      let e = conclude-still loop (
        query-IsStill c (λ s. s.list_requests)
          (λ rs. conclude (
            for_each (reconcile_validity d c now (with_api_key_requests background rs))
              (d.lo.filter is_active_approval as')))
          rs r (query-IsStill c (λ s. s.list_approvals) _ as' p still)) in
      current (
        for_each-still (IsNewValidity d c now ctx as') (reconcile_validity d c now ctx)
          (d.lo.filter is_active_approval as') a
          (λ x j.
            let (k, u) =
              mem-keep is_active_approval x as'
                (rw (d.lo.filter_lem is_active_approval as') at j) in
            validity-Sends d c now ctx as' x k (ground arith))
          e
          (rw (d.lo.filter_lem is_active_approval as')
            (keep-mem is_active_approval a as' i (ground arith))))
    where
      current :
          reconcile_validity d c now (with_api_key_requests background rs) a [] ≡ (ok tt, [])
          → (calculate_validity d now (with_api_key_requests background rs) a ≡ a.status)
            × (a.generation ≡ a.status.observed_generation)
      current e =
          elim (Bool-cases (
            d.kube.equal_approval_status
              (calculate_validity d now (with_api_key_requests background rs) a) a.status
            && nat_eq a.generation a.status.observed_generation)) [
              | inr f ↦ let q = ap (λ z. z.1) (rw f at e) in cc
              | inl u ↦ (
                (d.kube.equal_approval_status_iff
                      (calculate_validity d now (with_api_key_requests background rs) a) a.status).0
                    (ground arith),
                ground arith,
              )
            ]

  pub products_at_rest :
      (web : Web) (max_size : ℕ) (plans : List PlanPolicy) (policies : List AuthPolicy)
      (ps : List ApiProduct) (p : ApiProduct)
      → (c.snapshot []).list_plan_policies ≡ ok plans
      → (c.snapshot []).list_auth_policies ≡ ok policies
      → (c.snapshot []).list_products ≡ ok ps
      → IsStill (reconcile_products d c web now max_size)
      → In p ps
      → p.deletion_timestamp ≡ none
      → (calculate_product d web now max_size []
            (c.snapshot [])
            (with_auth_policies (with_plan_policies background plans) policies)
            p
          ≡ ok p.status)
        × (p.generation ≡ p.status.observed_generation)
  unfolding reconcile_products reconcile_product write_product
  products_at_rest web max_size plans policies ps p l m n still i t =
      let ctx = with_auth_policies (with_plan_policies background plans) policies in
      let e =
        conclude-still
          (for_each (reconcile_product d c web now max_size ctx) (d.lo.filter is_active_product ps))
          (query-IsStill c (λ s. s.list_products)
            (λ ps. conclude (
              for_each (reconcile_product d c web now max_size ctx)
                (d.lo.filter is_active_product ps)))
            ps n
            (query-IsStill c (λ s. s.list_auth_policies) _ policies m
              (query-IsStill c (λ s. s.list_plan_policies) _ plans l still))) in
      current ctx (
        for_each-still (IsNewState d c web now max_size ctx ps)
          (reconcile_product d c web now max_size ctx) (d.lo.filter is_active_product ps) p
          (λ x j.
            let (k, u) =
              mem-keep is_active_product x ps (rw (d.lo.filter_lem is_active_product ps) at j) in
            product-Sends d c web now max_size ctx ps x k (ground arith))
          e
          (rw (d.lo.filter_lem is_active_product ps)
            (keep-mem is_active_product p ps i (ground arith))))
    where
      current :
          (ctx : Context)
          → reconcile_product d c web now max_size ctx p [] ≡ (ok tt, [])
          → (calculate_product d web now max_size [] (c.snapshot []) ctx p ≡ ok p.status)
            × (p.generation ≡ p.status.observed_generation)
      current ctx e =
          elim (Result-cases (calculate_product d web now max_size [] (c.snapshot []) ctx p)) [
            | inr (x, u) ↦ let q = ap (λ z. z.0) (rw u at e) in cc
            | inl (status, u) ↦
                elim (Bool-cases (
                  d.kube.equal_product_status status p.status
                  && nat_eq p.generation p.status.observed_generation)) [
                    | inr f ↦ let q = ap (λ z. z.1) (rw (u, f) at e) in cc
                    | inl v ↦
                        let same =
                          (d.kube.equal_product_status_iff status p.status).0 (ground arith) in
                        (u ∙ ap ok same, ground arith)
                  ]
          ]
