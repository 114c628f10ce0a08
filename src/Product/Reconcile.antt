-- ===== src/Product/Reconcile.antt =====
-- reconcileStatus and Reconcile in internal/controller/apiproduct_controller.go.
use developer_portal_control.Prelude.{ℕ, Bool, ◌&&◌, if◌then◌else◌, is_none, nat_eq, List, some}
use developer_portal_control.Api.Product.{ApiProduct, ApiProductStatus}
use developer_portal_control.Api.External.{PlanPolicy, AuthPolicy}
use developer_portal_control.Deps.{Deps}
use developer_portal_control.Client.{Client, update_product_status}
use developer_portal_control.Client.Run.{Run, Requeue, ◌>>=◌, query, perform, done, for_each}
use developer_portal_control.Helper.{Context, background}
use developer_portal_control.Approval.{conclude}
use developer_portal_control.Product.Web.{Web}
use developer_portal_control.Product.Status.{calculate_status}

-- WithPlanPolicies and WithAuthPolicies
abbrev pub with_plan_policies : Context → List PlanPolicy → Context
with_plan_policies ctx items = record ctx { plan_policies = some items }

abbrev pub with_auth_policies : Context → List AuthPolicy → Context
with_auth_policies ctx items = record ctx { auth_policies = some items }

abbrev pub is_active_product : ApiProduct → Bool
is_active_product p = is_none p.deletion_timestamp

module _ (d : Deps) (c : Client) (web : Web) (now max_size : ℕ) where
  unfoldable pub write_status : ApiProduct → ApiProductStatus → Run (Unit {0})
  write_status product status =
      if d.kube.equal_product_status status product.status
        && nat_eq product.generation product.status.observed_generation
      then done tt
      else perform c (update_product_status (record product { status = status }))

  unfoldable pub reconcile_status : Context → ApiProduct → Run (Unit {0})
  unfolding write_status
  reconcile_status ctx product h =
      (query c (λ s. calculate_status d web now max_size h s ctx product) >>= write_status product)
        h

  unfoldable pub reconcile : Run Requeue
  unfolding reconcile_status
  reconcile = do
    plans ← query c (λ s. s.list_plan_policies)
    policies ← query c (λ s. s.list_auth_policies)
    products ← query c (λ s. s.list_products)
    conclude (
        for_each
          (reconcile_status (with_auth_policies (with_plan_policies background plans) policies))
          (d.lo.filter is_active_product products))
