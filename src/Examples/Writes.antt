-- ===== src/Examples/Writes.antt =====
-- What the controllers write into statuses, at concrete inputs.
use developer_portal_control.Prelude.{none, [], ◌∷◌, refl, inl, In}
use developer_portal_control.Prelude.Outcome.{ok, err, other}
use developer_portal_control.Meta.{no_false}
use developer_portal_control.Api.Product.{condition_ready}
use developer_portal_control.Deps.Reference.{reference_deps, reference_kube}
use developer_portal_control.Client.{
  Client, Call, update_request_status, update_approval_status, update_product_status,
}
use developer_portal_control.Client.Run.{for_each}
use developer_portal_control.Helper.{Context, background, with_api_key_requests}
use developer_portal_control.RequestStatus.Writes.{IsCopy, writes-IsCopy}
use developer_portal_control.RequestStatus.{
  reconcile as reconcile_requests, conditions_equal, copy_conditions,
}
use developer_portal_control.Approval.Writes.{IsNewValidity, writes-IsNewValidity}
use developer_portal_control.Approval.{
  calculate_valid_condition, calculate_status as approval_status, reconcile_statuses,
}
use developer_portal_control.Product.Writes.{IsNewState, writes-IsNewState}
use developer_portal_control.Product.Reconcile.{
  reconcile as reconcile_products, with_plan_policies, with_auth_policies,
}
use developer_portal_control.Product.Status.{
  status_of, plan_condition_of, calculate_status, plan_policy_discovered_condition, ready_condition,
  auth_policy_discovered_condition,
}
use developer_portal_control.Product.Policies.{find_plan_policy, find_auth_policy, policy_of_read}
use developer_portal_control.Product.OpenApi.{open_api_status}
use developer_portal_control.Product.Oidc.{
  bare_condition, oidc_discovered_condition, extract_issuer_url_from_auth_scheme,
}
use developer_portal_control.Product.Web.{Web, answered}
use developer_portal_control.Examples.Orders.{in_order}
use developer_portal_control.Examples.Cluster.{
  cluster, client_of, request, approval, product, approved_key, approved_condition,
}

abbrev client : Client
client = client_of cluster

-- The key of the request is approved.
abbrev later_client : Client
later_client = client_of (record cluster { get_key = λ k. ok approved_key })

abbrev request_write : Call
request_write =
    update_request_status
      (record request { status = record { conditions = approved_condition ∷ [] } })

request_written : In request_write (reconcile_requests later_client []).1
unfolding reconcile_requests conditions_equal copy_conditions for_each
request_written = inl refl

writes-IsCopy_example : IsCopy later_client (request ∷ []) request_write
writes-IsCopy_example = writes-IsCopy later_client (request ∷ []) request_write refl request_written

abbrev requests : Context
requests = with_api_key_requests background (request ∷ [])

abbrev approval_write : Call
approval_write =
    update_approval_status
      (record approval { status = approval_status reference_deps 100 requests approval })

approval_written : In approval_write (reconcile_statuses reference_deps client 100 []).1
unfolding reconcile_statuses for_each reference_kube native.Mathlib.Decide.ℕ_discrete
    calculate_valid_condition
approval_written = inl refl

writes-IsNewValidity_example :
    IsNewValidity reference_deps client 100 requests (approval ∷ []) approval_write
writes-IsNewValidity_example =
    writes-IsNewValidity reference_deps client 100 (approval ∷ []) (request ∷ []) approval_write
      refl refl approval_written

abbrev policies : Context
policies = with_auth_policies (with_plan_policies background []) []

abbrev web : Web
web = record {
  exchange = λ h url. answered 200 (ok "{}");
  decode = λ body. err (other "EOF");
  ranges = λ h. in_order;
}

-- There is no route.
abbrev product_write : Call
product_write = update_product_status (record product {
  status =
      status_of reference_deps web 100 512 [] product none (plan_condition_of reference_deps none)
        none
        (bare_condition condition_ready no_false "HTTPRouteNotFound"
          "HTTPRoute shop/route not found");
})

product_written : In product_write (reconcile_products reference_deps client web 100 512 []).1
unfolding reconcile_products for_each calculate_status find_plan_policy policy_of_read
    plan_policy_discovered_condition find_auth_policy ready_condition reference_kube
    native.Mathlib.Decide.ℕ_discrete open_api_status auth_policy_discovered_condition
    oidc_discovered_condition extract_issuer_url_from_auth_scheme
product_written = inl refl

writes-IsNewState_example :
    IsNewState reference_deps client web 100 512 policies (product ∷ []) product_write
writes-IsNewState_example =
    writes-IsNewState reference_deps client web 100 512 [] [] (product ∷ []) product_write refl refl
      refl product_written
