-- ===== src/KeyStatus/Failures.antt =====
-- calculateFailedCondition: what a key refers to is there and complete, or the key has failed.
use developer_portal_control.Prelude.{
  ℕ, String, Option, none, some, List, [], ◌∷◌, ◌==◌, if◌then◌else◌, is_some, ◌+++◌,
}
use developer_portal_control.Prelude.Outcome.{Result, ok, err, ◌>>=◌, is_not_found}
use developer_portal_control.Meta.{Condition}
use developer_portal_control.Lo.{lookup}
use developer_portal_control.Api.Object.{ObjectKey, key_of}
use developer_portal_control.Api.External.{Secret, AuthenticationSpec, AuthSchemeSpec}
use developer_portal_control.Api.Key.{ApiKey, api_product_key, condition_failed}
use developer_portal_control.Api.Product.{ApiProduct}
use developer_portal_control.Deps.{Deps}
use developer_portal_control.Client.{Snapshot}
use developer_portal_control.Helper.{get_kuadrant_namespace, key_text}
use developer_portal_control.KeyStatus.Approvals.{true_condition}

-- The entry of a secret that holds the key.
abbrev pub api_key_secret_key : String
api_key_secret_key = "api_key"

abbrev pub secret_key : ApiKey → ObjectKey
secret_key key = record { namespace = key.namespace; name = key.spec.secret_ref }

abbrev pub failure : ApiKey → String → String → Option Condition
failure key reason message = some (true_condition key condition_failed reason message)

module _ (d : Deps) where
  -- The methods of the scheme that authenticate by API key, as the range number n visits them.
  unfoldable pub api_key_auth_methods :
      Snapshot → ApiKey → ℕ → AuthSchemeSpec → List AuthenticationSpec
  api_key_auth_methods s key n scheme =
      d.lo.filter_values (λ k v. d.kube.uses_api_key v)
        (s.ranges.visit (key_of key.metadata) n scheme.authentication)

  unfoldable pub check_auth_methods : ApiKey → List AuthenticationSpec → Option Condition
  check_auth_methods key [] = failure key "APIKeyAuthSchemeNotFound" (
      "APIProduct "
      +++ key_text (api_product_key key)
      +++ " does not have an API key authentication scheme configured")
  check_auth_methods key (m ∷ ms) = none

  unfoldable pub check_auth_scheme : Snapshot → ApiKey → Option AuthSchemeSpec → Option Condition
  check_auth_scheme s key none = failure key "AuthSchemeNotFound" (
      "APIProduct "
      +++ key_text (api_product_key key)
      +++ " does not have a discovered authentication scheme")
  check_auth_scheme s key (some scheme) =
      check_auth_methods key (api_key_auth_methods s key 0 scheme)

  unfoldable pub check_entry : Snapshot → ApiKey → ApiProduct → Option String → Option Condition
  check_entry s key product none =
      failure key "SecretAPIKeyNotFound"
        ("Secret " +++ key_text (secret_key key) +++ " does not contain \"api_key\" entry")
  check_entry s key product (some value) =
      if value == ""
      then failure key "SecretAPIKeyEmpty"
          ("Secret " +++ key_text (secret_key key) +++ " has empty \"api_key\" entry")
      else check_auth_scheme s key product.status.discovered_auth_scheme

  unfoldable pub check_secret :
      Snapshot → ApiKey → ApiProduct → Result Secret → Result (Option Condition)
  check_secret s key product (err e) =
      if is_not_found e
      then ok (
          failure key "SecretNotFound"
            ("Referenced secret " +++ key_text (secret_key key) +++ " not found"))
      else err e
  check_secret s key product (ok secret) =
      ok (check_entry s key product (lookup api_key_secret_key secret.entries))

  unfoldable pub check_product : Snapshot → ApiKey → Result ApiProduct → Result (Option Condition)
  check_product s key (err e) =
      if is_not_found e
      then ok (
          failure key "APIProductNotFound"
            ("Referenced APIProduct " +++ key_text (api_product_key key) +++ " not found"))
      else err e
  check_product s key (ok product) =
      if is_some product.deletion_timestamp
      then ok (
          failure key "APIProductDeleting"
            ("Referenced APIProduct " +++ key_text (api_product_key key) +++ " is being deleted"))
      else if key.spec.secret_ref == ""
      then ok none
      else check_secret s key product (s.get_secret (secret_key key))

  -- What follows the search for Kuadrant.
  unfoldable pub failed_at : Snapshot → ApiKey → String → Result (Option Condition)
  failed_at s key namespace =
      if namespace == ""
      then ok (failure key "KuadrantNotFound" "Kuadrant CR not found in cluster")
      else check_product s key (s.get_product (api_product_key key))

  unfoldable pub calculate_failed_condition : Snapshot → ApiKey → Result (Option Condition)
  unfolding api_key_auth_methods check_auth_methods check_auth_scheme check_entry check_secret
      check_product failed_at
  calculate_failed_condition s key = get_kuadrant_namespace s >>= failed_at s key
