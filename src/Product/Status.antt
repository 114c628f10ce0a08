-- ===== src/Product/Status.antt =====
-- calculateStatus, readyCondition and the conditions for the discovered policies in
-- internal/controller/apiproduct_controller.go.
use developer_portal_control.Prelude.{
  String, ℕ, Bool, ◌&&◌, Option, none, some, List, ◌==◌, if◌then◌else◌, ◌+++◌,
}
use developer_portal_control.Prelude.Outcome.{Result, ok, err, is_not_found, ◌>>=◌}
use developer_portal_control.Meta.{Condition, yes_true, no_false, is_status_true}
use developer_portal_control.Api.External.{HttpRoute, AuthSchemeSpec, AuthPolicy, PlanPolicy}
use developer_portal_control.Api.Product.{
  ApiProduct, ApiProductStatus, condition_ready, condition_plan_policy_discovered,
  condition_auth_policy_discovered, condition_open_api_spec_ready, plan_policy_into_plans,
}
use developer_portal_control.Deps.{Deps}
use developer_portal_control.Client.{Snapshot, Call}
use developer_portal_control.Helper.{Context, key_text}
use developer_portal_control.Product.Policies.{
  route_key, find_plan_policy, find_auth_policy, is_auth_policy_accepted_and_enforced,
}
use developer_portal_control.Product.Web.{Web}
use developer_portal_control.Product.Oidc.{
  bare_condition, oidc_discovery_status, oidc_discovered_condition, order_of,
}
use developer_portal_control.Product.OpenApi.{
  OpenApiResult, open_api_url, open_api_status, open_api_spec_ready_condition,
}

abbrev pub is_accepted : Condition → Bool
is_accepted c = c.type == "Accepted" && is_status_true c.status

module _ (d : Deps) where
  unfoldable pub route_accepted : HttpRoute → Bool
  route_accepted route =
      d.lo.contains_by is_accepted (d.lo.flat_map_by (λ (cs : List Condition). cs) route.parents)

  unfoldable pub ready_of_route : ApiProduct → Result HttpRoute → Result Condition
  unfolding route_accepted
  ready_of_route product (err e) =
      if is_not_found e
      then ok (
          bare_condition condition_ready no_false "HTTPRouteNotFound"
            ("HTTPRoute " +++ key_text (route_key product) +++ " not found"))
      else err e
  ready_of_route product (ok route) =
      if route_accepted route
      then ok (
          bare_condition condition_ready yes_true "HTTPRouteAccepted"
            ("HTTPRoute " +++ key_text (route_key product) +++ " accepted"))
      else ok (
          bare_condition condition_ready no_false "HTTPRouteNotAccepted"
            ("HTTPRoute " +++ key_text (route_key product) +++ " not accepted"))

  unfoldable pub ready_condition : Snapshot → ApiProduct → Result Condition
  unfolding ready_of_route
  ready_condition s product = ready_of_route product (s.get_route (route_key product))

  abbrev pub plan_condition_of : Option PlanPolicy → Condition
  plan_condition_of none =
      bare_condition condition_plan_policy_discovered no_false "NotFound" "PlanPolicy not found"
  plan_condition_of (some p) = bare_condition condition_plan_policy_discovered yes_true "Found" (
      "Discovered PlanPolicy " +++ p.name +++ " targeting " +++ p.target_ref.kind +++ " "
      +++ p.target_ref.name)

  unfoldable pub plan_policy_discovered_condition :
      Snapshot → Context → ApiProduct → Result Condition
  plan_policy_discovered_condition s ctx product = do
    policy ← find_plan_policy d s ctx product
    ok (plan_condition_of policy)

  unfoldable pub auth_policy_discovered_condition : Option AuthPolicy → Condition
  auth_policy_discovered_condition none =
      bare_condition condition_auth_policy_discovered no_false "NotFound" "AuthPolicy not found"
  auth_policy_discovered_condition (some p) =
      if is_auth_policy_accepted_and_enforced d p
      then bare_condition condition_auth_policy_discovered yes_true "Found" (
          "Discovered AuthPolicy " +++ p.name +++ " targeting " +++ p.target_ref.kind +++ " "
          +++ p.target_ref.name)
      else bare_condition condition_auth_policy_discovered no_false "AuthPolicyNotReady"
          "AuthPolicy not accepted or not enforced"

  -- The scheme of a policy that is in force.
  unfoldable pub discovered_scheme : Option AuthPolicy → Option AuthSchemeSpec
  discovered_scheme none = none
  discovered_scheme (some p) =
      if is_auth_policy_accepted_and_enforced d p then p.auth_scheme else none

  -- The condition for the OpenAPI document, set or removed.
  unfoldable pub with_open_api_condition :
      ℕ → Option String → OpenApiResult → List Condition → List Condition
  unfolding open_api_spec_ready_condition
  with_open_api_condition now none r cs = d.meta.remove cs condition_open_api_spec_ready
  with_open_api_condition now (some url) r cs = elim (open_api_spec_ready_condition r) [
    | none ↦ cs
    | some c ↦ d.meta.set now cs c
  ]

module _ (d : Deps) (web : Web) (now max_size : ℕ) where
  -- The conditions for the policies, for OIDC and for the route, set one after the other.
  abbrev pub discovered_conditions :
      List Call → ApiProduct → Condition → Option AuthPolicy → Condition → List Condition
  discovered_conditions h product plan_cond policy ready_cond =
      let scheme = discovered_scheme d policy in
      let oidc = oidc_discovery_status d.texts web h product scheme in
      let with_plan = d.meta.set now product.status.conditions plan_cond in
      let with_auth = d.meta.set now with_plan (auth_policy_discovered_condition d policy) in
      let with_oidc =
        d.meta.set now with_auth
          (oidc_discovered_condition d.texts (order_of web h product 2) scheme oidc.1) in
      d.meta.set now with_oidc ready_cond

  -- calculateStatus, after the reads of the policies and of the route.
  unfoldable pub status_of :
      List Call
      → ApiProduct
      → Option PlanPolicy
      → Condition
      → Option AuthPolicy
      → Condition
      → ApiProductStatus
  unfolding with_open_api_condition discovered_scheme
  status_of h product plan_policy plan_cond policy ready_cond =
      let open_api = open_api_status d web now max_size h product in
      record {
        observed_generation = product.generation;
        discovered_plans = plan_policy_into_plans d.lo plan_policy;
        open_api = open_api.0;
        conditions =
            with_open_api_condition d now (open_api_url product) open_api
              (discovered_conditions h product plan_cond policy ready_cond);
        discovered_auth_scheme = discovered_scheme d policy;
        oidc_discovery =
            (oidc_discovery_status d.texts web h product (discovered_scheme d policy)).0;
      }

  unfoldable pub calculate_status :
      List Call → Snapshot → Context → ApiProduct → Result ApiProductStatus
  unfolding status_of
  calculate_status h s ctx product = do
    plan_policy ← find_plan_policy d s ctx product
    plan_cond ← plan_policy_discovered_condition d s ctx product
    policy ← find_auth_policy d s ctx product
    ready_cond ← ready_condition d s product
    ok (status_of h product plan_policy plan_cond policy ready_cond)
