-- ===== src/Product/Writes.antt =====
-- What the reconcile of the products writes.
use developer_portal_control.Prelude.{
  ℕ, ◌&&◌, none, List, [], ◌≡◌, refl, inl, inr, arith, In, Bool-cases, mem-keep, nat_eq,
}
use developer_portal_control.Prelude.Outcome.{ok, Result-cases}
use developer_portal_control.Api.External.{PlanPolicy, AuthPolicy}
use developer_portal_control.Api.Product.{ApiProduct, ApiProductStatus}
use developer_portal_control.Deps.{Deps}
use developer_portal_control.Client.{Client, Call, update_product_status}
use developer_portal_control.Client.Sends.{same, more, Sends, Sends-for_each, Added-new}
use developer_portal_control.Helper.{Context, background}
use developer_portal_control.Product.Web.{Web}
use developer_portal_control.Product.Status.{calculate_status}
use developer_portal_control.Product.Reconcile.{
  is_active_product, write_status, reconcile_status, reconcile, with_plan_policies,
  with_auth_policies,
}

module _ (d : Deps) (c : Client) (web : Web) (now max_size : ℕ) where
  -- A product of the list that is not being deleted gets the status that is calculated for it from
  -- what the cluster holds and the web answers then, which it does not have yet.
  abbrev pub IsNewState : Context → List ApiProduct → Call → Type 0
  IsNewState ctx products w =
      (p : ApiProduct) × (h : List Call) × (status : ApiProductStatus) × In p products
      × (p.deletion_timestamp ≡ none)
      × (calculate_status d web now max_size h (c.snapshot h) ctx p ≡ ok status)
      × (¬ ((status ≡ p.status) × (p.generation ≡ p.status.observed_generation)))
      × (w ≡ update_product_status (record p { status = status }))

  pub status-Sends :
      (ctx : Context) (products : List ApiProduct) (p : ApiProduct)
      → In p products
      → p.deletion_timestamp ≡ none
      → Sends (IsNewState ctx products) (reconcile_status d c web now max_size ctx p)
  unfolding reconcile_status write_status
  status-Sends ctx products p i t h =
      elim (Result-cases (calculate_status d web now max_size h (c.snapshot h) ctx p)) [
        | inr (x, e) ↦ rw e same
        | inl (status, e) ↦
            elim (Bool-cases (
              d.kube.equal_product_status status p.status
              && nat_eq p.generation p.status.observed_generation)) [
                | inl b ↦ rw (e, b) same
                | inr b ↦
                    rw (e, b)
                      (more
                        (
                          p,
                          h,
                          status,
                          i,
                          t,
                          e,
                          (λ (x, y).
                              ground
                                (arith, (d.kube.equal_product_status_iff status p.status).1 x)),
                          refl,
                        )
                        same)
              ]
      ]

  -- All that the reconcile of the products writes is statuses of listed products that are not being
  -- deleted: each is the status that is calculated for that product, from the policies that were
  -- listed and from what the cluster holds and the web answers then, and the product does not have
  -- it yet, or has it for an older generation. Nothing else of a product is changed.
  pub writes-IsNewState :
      (plans : List PlanPolicy) (policies : List AuthPolicy) (products : List ApiProduct) (w : Call)
      → (c.snapshot []).list_plan_policies ≡ ok plans
      → (c.snapshot []).list_auth_policies ≡ ok policies
      → (c.snapshot []).list_products ≡ ok products
      → In w (reconcile d c web now max_size []).1
      → IsNewState (with_auth_policies (with_plan_policies background plans) policies) products w
  unfolding reconcile
  writes-IsNewState plans policies products w p a l i =
      let ctx = with_auth_policies (with_plan_policies background plans) policies in
      Added-new (IsNewState ctx products) w
        (Sends-for_each (IsNewState ctx products) (reconcile_status d c web now max_size ctx)
          (d.lo.filter is_active_product products)
          (λ x j.
            let (k, t) =
              mem-keep is_active_product x products
                (rw (d.lo.filter_lem is_active_product products) at j) in
            status-Sends ctx products x k (ground arith))
          [])
        (rw (p, a, l) at i)
