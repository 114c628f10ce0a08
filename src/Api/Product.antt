-- ===== src/Api/Product.antt =====
-- api/v1alpha1/apiproduct_types.go. Of the spec, the fields that a controller reads.
use developer_portal_control.Prelude.{ℕ, String, Option, none, some, List, []}
use developer_portal_control.Meta.{Condition}
use developer_portal_control.Lo.{Lo}
use developer_portal_control.Api.Object.{ObjectMeta}
use developer_portal_control.Api.External.{AuthSchemeSpec, PlanPolicy, Plan}

abbrev pub condition_ready : String
condition_ready = "Ready"

abbrev pub condition_plan_policy_discovered : String
condition_plan_policy_discovered = "PlanPolicyDiscovered"

abbrev pub condition_auth_policy_discovered : String
condition_auth_policy_discovered = "AuthPolicyDiscovered"

abbrev pub condition_oidc_discovered : String
condition_oidc_discovered = "OIDCDiscovered"

abbrev pub condition_open_api_spec_ready : String
condition_open_api_spec_ready = "OpenAPISpecReady"

pub record DocumentationSpec : Type 0 where
  pub open_api_spec_url : Option String

pub record ApiProductSpec : Type 0 where
  pub approval_mode : String
  -- The name in `TargetRef`.
  pub target_ref : String
  pub documentation : Option DocumentationSpec

pub record PlanSpec : Type 0 where
  pub tier : String
  pub limits : String

pub record OpenApiStatus : Type 0 where
  pub raw : String
  pub last_sync_time : ℕ
  pub max_size_used : ℕ

pub record OidcDiscoveryStatus : Type 0 where
  pub token_endpoint : String

pub record ApiProductStatus : Type 0 where
  pub observed_generation : ℕ
  pub discovered_plans : List PlanSpec
  pub open_api : Option OpenApiStatus
  pub conditions : List Condition
  pub discovered_auth_scheme : Option AuthSchemeSpec
  pub oidc_discovery : Option OidcDiscoveryStatus

pub record ApiProduct : Type 0 where
  pub metadata : ObjectMeta
  pub open metadata use *
  pub spec : ApiProductSpec
  pub status : ApiProductStatus

-- A nil policy has no plans.
abbrev pub plan_policy_into_plans : Lo → Option PlanPolicy → List PlanSpec
plan_policy_into_plans lo none = []
plan_policy_into_plans lo (some p) =
    lo.map_by (λ (q : Plan). record { tier = q.tier; limits = q.limits }) p.plans
