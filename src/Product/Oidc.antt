-- ===== src/Product/Oidc.antt =====
-- FetchDiscovery in internal/oidc/discovery.go, and the OIDC part of apiproduct_controller.go.
use Prim.Native.String.{len, slice}
use developer_portal_control.Prelude.{
  String, ℕ, ◌-◌, Option, none, some, List, [], ◌∷◌, ◌==◌, if◌then◌else◌, nat_eq, not, ◌+++◌,
}
use developer_portal_control.Prelude.Outcome.{Error, Result, ok, err, other, wrapped}
use developer_portal_control.Api.Object.{key_of}
use developer_portal_control.Meta.{Condition, yes_true, no_false, Status}
use developer_portal_control.Api.External.{AuthSchemeSpec, AuthMethods}
use developer_portal_control.Api.Product.{
  ApiProduct, OidcDiscoveryStatus, condition_oidc_discovered,
}
use developer_portal_control.Deps.{Texts}
use developer_portal_control.Client.{Call}
use developer_portal_control.Product.Web.{
  Web, Exchange, not_made, not_answered, answered, DiscoveryDocument,
}

-- strings.TrimSuffix(s, "/"); lengths count bytes.
abbrev pub trim_slash : String → String
trim_slash s = if slice s (len s - 1) (len s) == "/" then slice s 0 (len s - 1) else s

abbrev pub well_known_url : String → String
well_known_url issuer_url = trim_slash issuer_url +++ "/.well-known/openid-configuration"

abbrev pub status_ok : ℕ
status_ok = 200

module _ (texts : Texts) (web : Web) where
  unfoldable pub checked_document : Result DiscoveryDocument → Result DiscoveryDocument
  checked_document (err e) = err (wrapped "failed to decode discovery document" e)
  checked_document (ok doc) =
      if doc.token_endpoint == ""
      then err (other "token_endpoint not found in discovery document")
      else ok doc

  unfoldable pub document_of : Exchange → Result DiscoveryDocument
  unfolding checked_document
  document_of (not_made e) = err (wrapped "failed to create request" e)
  document_of (not_answered e) = err (wrapped "failed to fetch discovery document" e)
  document_of (answered code body) =
      if not (nat_eq code status_ok)
      then err (other ("unexpected status code: " +++ texts.decimal code))
      else checked_document (web.decode body)

  unfoldable pub fetch_discovery : List Call → String → Result DiscoveryDocument
  unfolding document_of
  fetch_discovery h issuer_url = document_of (web.exchange h (well_known_url issuer_url))

-- The issuer of a method, "" where it has none.
abbrev pub issuer_of : Option String → String
issuer_of none = ""
issuer_of (some url) = url

-- The loop over the methods.
unfoldable pub first_issuer : AuthMethods → String
first_issuer [] = ""
first_issuer ((name, auth) ∷ rest) =
    if issuer_of auth.jwt == "" then first_issuer rest else issuer_of auth.jwt

-- The methods are visited in the order that the first argument gives to them.
unfoldable pub extract_issuer_url_from_auth_scheme :
    (AuthMethods → AuthMethods) → Option AuthSchemeSpec → String
unfolding first_issuer
extract_issuer_url_from_auth_scheme order none = ""
extract_issuer_url_from_auth_scheme order (some scheme) = first_issuer (order scheme.authentication)

-- The order of the range number n that the calculation of a product's status makes.
abbrev pub order_of : Web → List Call → ApiProduct → ℕ → AuthMethods → AuthMethods
order_of web h product n = (web.ranges h).visit (key_of product.metadata) n

module _ (texts : Texts) (web : Web) (h : List Call) where
  -- What a fetch gives.
  abbrev pub fetched_status : Result DiscoveryDocument → Option OidcDiscoveryStatus × Option Error
  fetched_status (ok doc) = (some (record { token_endpoint = doc.token_endpoint }), none)
  fetched_status (err e) = (none, some e)

  -- By the issuer, the status before, and the issuer before.
  unfoldable pub oidc_status_of :
      String → Option OidcDiscoveryStatus → String → Option OidcDiscoveryStatus × Option Error
  unfolding fetch_discovery
  oidc_status_of issuer_url none existing =
      if issuer_url == ""
      then (none, none)
      else fetched_status (fetch_discovery texts web h issuer_url)
  oidc_status_of issuer_url (some old) existing =
      if issuer_url == ""
      then (some old, none)
      else if existing == issuer_url
      then (some old, none)
      else fetched_status (fetch_discovery texts web h issuer_url)

  unfoldable pub oidc_discovery_status :
      ApiProduct → Option AuthSchemeSpec → Option OidcDiscoveryStatus × Option Error
  unfolding oidc_status_of
  oidc_discovery_status product scheme =
      oidc_status_of (extract_issuer_url_from_auth_scheme (order_of web h product 0) scheme)
        product.status.oidc_discovery
        (extract_issuer_url_from_auth_scheme (order_of web h product 1)
          product.status.discovered_auth_scheme)

-- A condition without a generation, as this controller sets them.
abbrev pub bare_condition : String → Status → String → String → Condition
bare_condition type status reason message = record {
  type = type;
  status = status;
  observed_generation = 0;
  last_transition_time = none;
  reason = reason;
  message = message;
}

abbrev pub oidc_condition_of : Texts → String → Option Error → Condition
oidc_condition_of texts url (some e) =
    bare_condition condition_oidc_discovered no_false "DiscoveryFailed"
      ("Failed to fetch OIDC discovery from " +++ url +++ ": " +++ texts.error_text e)
oidc_condition_of texts url none =
    bare_condition condition_oidc_discovered yes_true "Discovered"
      ("OIDC discovery fetched from " +++ url)

unfoldable pub oidc_discovered_condition :
    Texts → (AuthMethods → AuthMethods) → Option AuthSchemeSpec → Option Error → Condition
oidc_discovered_condition texts order scheme fetch_err =
    let issuer_url = extract_issuer_url_from_auth_scheme order scheme in
    if issuer_url == ""
    then bare_condition condition_oidc_discovered no_false "NoOIDCAuth"
        "No JWT/OIDC authentication configured in AuthPolicy"
    else oidc_condition_of texts issuer_url fetch_err
