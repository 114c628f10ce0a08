-- ===== src/Product/Policies.antt =====
-- The policies that apply to a product: findPlanPolicyForAPIProduct in apiproduct_controller.go, and
-- FindAuthPolicyForAPIProduct and the conditions of an AuthPolicy in apiproduct_helper.go.
use developer_portal_control.Prelude.{
  String, Bool, ◌&&◌, Option, none, some, List, ◌==◌, if◌then◌else◌,
}
use developer_portal_control.Prelude.Outcome.{Result, ok, err, other, is_not_found}
use developer_portal_control.Api.Object.{ObjectMeta, ObjectKey}
use developer_portal_control.Api.External.{
  HttpRoute, ParentReference, TargetRef, AuthPolicy, PlanPolicy,
}
use developer_portal_control.Api.Key.{holds}
use developer_portal_control.Api.Product.{ApiProduct}
use developer_portal_control.Deps.{Deps}
use developer_portal_control.Client.{Snapshot}
use developer_portal_control.Helper.{Context}

abbrev pub route_key : ApiProduct → ObjectKey
route_key product = record { namespace = product.namespace; name = product.spec.target_ref }

-- A policy has metadata and a target.
pub record Policy (P : Type 0) : Type 0 where
  pub metadata : P → ObjectMeta
  pub target : P → TargetRef

abbrev pub plan_policy : Policy PlanPolicy
plan_policy = record { metadata = λ p. p.metadata; target = λ p. p.target_ref }

abbrev pub auth_policy : Policy AuthPolicy
auth_policy = record { metadata = λ p. p.metadata; target = λ p. p.target_ref }

-- ptr.Deref(parentRef.Namespace, route.Namespace)
abbrev pub parent_namespace : HttpRoute → ParentReference → String
parent_namespace route ref = elim ref.namespace [ none ↦ route.namespace | some n ↦ n ]

module _ {P : Type 0} (k : Policy P) where
  unfoldable pub targets_route : HttpRoute → P → Bool
  targets_route route p =
      (k.target p).kind == "HTTPRoute"
      && (k.metadata p).namespace == route.namespace
      && (k.target p).name == route.name

  abbrev pub is_for_gateway : P → Bool
  is_for_gateway p = (k.target p).kind == "Gateway"

  unfoldable pub is_parent : HttpRoute → P → ParentReference → Bool
  is_parent route p ref =
      (k.target p).name == ref.name && (k.metadata p).namespace == parent_namespace route ref

  module _ (d : Deps) where
    unfoldable pub targets_parent : HttpRoute → P → Bool
    targets_parent route p = d.lo.contains_by (is_parent route p) route.parent_refs

    -- The policy of the route, else that of one of its gateways.
    unfoldable pub policy_of_route : HttpRoute → List P → Option P
    unfolding targets_route targets_parent
    policy_of_route route ps = elim (d.lo.find (targets_route route) ps) [
      | some p ↦ some p
      | none ↦ d.lo.find (targets_parent route) (d.lo.filter is_for_gateway ps)
    ]

    -- By the answer to the read of the route, and the list in the context.
    unfoldable pub policy_of_read : String → Option (List P) → Result HttpRoute → Result (Option P)
    unfolding policy_of_route
    policy_of_read message items (err e) = if is_not_found e then ok none else err e
    policy_of_read message none (ok route) = err (other message)
    policy_of_read message (some ps) (ok route) = ok (policy_of_route route ps)

module _ (d : Deps) where
  unfoldable pub find_plan_policy : Snapshot → Context → ApiProduct → Result (Option PlanPolicy)
  find_plan_policy s ctx product =
      policy_of_read plan_policy d "cannot read plan policies" ctx.plan_policies
        (s.get_route (route_key product))

  unfoldable pub find_auth_policy : Snapshot → Context → ApiProduct → Result (Option AuthPolicy)
  find_auth_policy s ctx product =
      policy_of_read auth_policy d "cannot read auth policies" ctx.auth_policies
        (s.get_route (route_key product))

  -- meta.IsStatusConditionTrue: the condition is there with status True.
  unfoldable pub is_auth_policy_condition_true : AuthPolicy → String → Bool
  is_auth_policy_condition_true policy condition = holds (d.meta.find policy.conditions condition)

  unfoldable pub is_auth_policy_accepted_and_enforced : AuthPolicy → Bool
  unfolding is_auth_policy_condition_true
  is_auth_policy_accepted_and_enforced policy =
      is_auth_policy_condition_true policy "Accepted"
      && is_auth_policy_condition_true policy "Enforced"
