-- ===== src/KeyStatus/Status.antt =====
-- calculateStatus and what it puts together: the conditions, the authentication scheme, the limits
-- of the plan and the host name.
use developer_portal_control.Prelude.{
  ℕ, String, Option, none, some, List, [], ◌∷◌, ◌==◌, if◌then◌else◌,
}
use developer_portal_control.Prelude.Outcome.{Result, ok, err, ◌>>=◌, is_not_found}
use developer_portal_control.Api.External.{AuthenticationSpec, HttpRoute}
use developer_portal_control.Api.Key.{ApiKey, ApiKeyStatus, AuthScheme, api_product_key}
use developer_portal_control.Api.Product.{ApiProduct, PlanSpec}
use developer_portal_control.Deps.{Deps}
use developer_portal_control.Client.{Snapshot}
use developer_portal_control.Helper.{Context}
use developer_portal_control.KeyStatus.Failures.{api_key_auth_methods}
use developer_portal_control.KeyStatus.Conditions.{calculate_status_conditions}

-- A read that may find nothing.
abbrev pub found : {A : Type 0} → Result A → Result (Option A)
found (ok a) = ok (some a)
found (err e) = if is_not_found e then ok none else err e

-- getAPIProduct
unfoldable pub get_api_product : Snapshot → ApiKey → Result (Option ApiProduct)
get_api_product s key = found (s.get_product (api_product_key key))

-- The first of the methods.
abbrev pub first_method : List AuthenticationSpec → Option AuthScheme
first_method [] = none
first_method (m ∷ ms) =
    some (record { authentication_spec = m.api_key; credentials = some m.credentials })

abbrev pub scheme_of_product : Deps → Snapshot → ApiKey → Option ApiProduct → Option AuthScheme
scheme_of_product d s key none = none
scheme_of_product d s key (some p) = elim p.status.discovered_auth_scheme [
  | none ↦ none
  | some scheme ↦ first_method (api_key_auth_methods d s key 1 scheme)
]

unfoldable pub calculate_auth_scheme : Deps → Snapshot → ApiKey → Result (Option AuthScheme)
unfolding get_api_product api_key_auth_methods
calculate_auth_scheme d s key = do
  product ← get_api_product s key
  ok (scheme_of_product d s key product)

-- The loop over the plans.
unfoldable pub find_limits : String → List PlanSpec → Option String
find_limits tier [] = none
find_limits tier (p ∷ ps) = if p.tier == tier then some p.limits else find_limits tier ps

abbrev pub limits_of_product : String → Option ApiProduct → Option String
limits_of_product tier none = none
limits_of_product tier (some p) = find_limits tier p.status.discovered_plans

unfoldable pub calculate_plan_limits : Snapshot → ApiKey → Result (Option String)
unfolding get_api_product find_limits
calculate_plan_limits s key = do
  product ← get_api_product s key
  ok (limits_of_product key.spec.plan_tier product)

abbrev pub first_hostname : List String → String
first_hostname [] = ""
first_hostname (h ∷ hs) = h

abbrev pub hostname_of_route : Result HttpRoute → Result String
hostname_of_route (ok route) = ok (first_hostname route.hostnames)
hostname_of_route (err e) = if is_not_found e then ok "" else err e

abbrev pub hostname_of_product : Snapshot → Option ApiProduct → Result String
hostname_of_product s none = ok ""
hostname_of_product s (some p) =
    hostname_of_route (s.get_route (record { namespace = p.namespace; name = p.spec.target_ref }))

unfoldable pub api_host_name : Snapshot → ApiKey → Result String
unfolding get_api_product
api_host_name s key = do product ← get_api_product s key; hostname_of_product s product

unfoldable pub calculate_status : Deps → Snapshot → Context → ApiKey → ℕ → Result ApiKeyStatus
calculate_status d s ctx key now = do
  conditions ← calculate_status_conditions d s ctx key now
  auth_scheme ← calculate_auth_scheme d s key
  limits ← calculate_plan_limits s key
  hostname ← api_host_name s key
  ok (record {
    observed_generation = key.generation;
    api_hostname = hostname;
    limits = limits;
    auth_scheme = auth_scheme;
    conditions = conditions;
  })
