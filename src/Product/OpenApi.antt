-- ===== src/Product/OpenApi.antt =====
-- openAPIStatus and openAPISpecReadyCondition in internal/controller/apiproduct_controller.go.
use Prim.Native.String.{len}
use developer_portal_control.Prelude.{
  String, ℕ, Bool, true, false, ◌&&◌, not, Option, none, some, List, ◌==◌, if◌then◌else◌, nat_eq,
  ltb, ◌+++◌,
}
use developer_portal_control.Prelude.Outcome.{Result, ok, err}
use developer_portal_control.Meta.{Condition, Status, yes_true, no_false}
use developer_portal_control.Api.Product.{ApiProduct, OpenApiStatus, condition_open_api_spec_ready}
use developer_portal_control.Deps.{Deps}
use developer_portal_control.Client.{Call}
use developer_portal_control.Product.Web.{Web, Exchange, not_made, not_answered, answered}
use developer_portal_control.Product.Oidc.{bare_condition, status_ok}

-- OpenAPISpecErr
pub record OpenApiSpecErr : Type 0 where
  pub reason : String
  pub message : String

-- A document and an error: the two results of openAPIStatus, whose error is always of that type.
abbrev pub OpenApiResult : Type 0
OpenApiResult = Option OpenApiStatus × Option OpenApiSpecErr

-- The URL of the document, where the product has one.
abbrev pub open_api_url : ApiProduct → Option String
open_api_url product = elim product.spec.documentation [
  | none ↦ none
  | some documentation ↦ documentation.open_api_spec_url
]

-- Condition.Status == metav1.ConditionFalse
abbrev pub is_status_false : Status → Bool
is_status_false no_false = true
is_status_false _ = false

abbrev pub no_retry : String
no_retry = ". Controller will not retry; the spec needs to change"

module _ (d : Deps) (web : Web) (now max_size : ℕ) where
  abbrev pub fetched : String → OpenApiStatus
  fetched raw = record { raw = raw; last_sync_time = now; max_size_used = max_size }

  abbrev pub refused : String → String → OpenApiResult
  refused reason message = (some (fetched ""), some (record { reason = reason; message = message }))

  unfoldable pub status_of_body : Result String → OpenApiResult
  status_of_body (err e) =
      refused "ReadFailed"
        ("failed to read OpenAPI spec response body: " +++ d.texts.error_text e +++ no_retry)
  status_of_body (ok body) =
      if ltb max_size (len body)
      then refused "SpecSizeTooLarge" (
          "OpenAPI spec exceeds size limit ("
          +++ d.texts.decimal max_size
          +++ " bytes)"
          +++ no_retry)
      else (some (fetched body), none)

  unfoldable pub status_of_exchange : String → Exchange → OpenApiResult
  unfolding status_of_body
  status_of_exchange url (not_made e) =
      refused "RequestCreationFailed"
        ("failed to create HTTP request for OpenAPI spec: " +++ d.texts.error_text e +++ no_retry)
  status_of_exchange url (not_answered e) =
      refused "FetchFailed" (
        "failed to fetch OpenAPI spec from " +++ url +++ ": " +++ d.texts.error_text e +++ no_retry)
  status_of_exchange url (answered code body) =
      if not (nat_eq code status_ok)
      then refused "FetchFailed" (
          "failed to fetch OpenAPI spec from "
          +++ url
          +++ ": unexpected status code "
          +++ d.texts.decimal code
          +++ no_retry)
      else status_of_body body

  unfoldable pub fetch_open_api : List Call → String → OpenApiResult
  unfolding status_of_exchange
  fetch_open_api h url = status_of_exchange url (web.exchange h url)

  -- The document was fetched for this generation and this limit.
  unfoldable pub is_fetched : ApiProduct → OpenApiStatus → Bool
  is_fetched product old =
      nat_eq product.generation product.status.observed_generation
      && nat_eq old.max_size_used max_size

  -- What was fetched before, with the error that the condition keeps.
  abbrev pub kept : OpenApiStatus → Condition → OpenApiResult
  kept old c =
      if is_status_false c.status
      then (some old, some (record { reason = c.reason; message = c.message }))
      else (some old, none)

  unfoldable pub keep_or_fetch :
      List Call → ApiProduct → String → Option OpenApiStatus → Option Condition → OpenApiResult
  unfolding fetch_open_api is_fetched
  keep_or_fetch h product url none c = fetch_open_api h url
  keep_or_fetch h product url (some old) none = fetch_open_api h url
  keep_or_fetch h product url (some old) (some c) =
      if is_fetched product old then kept old c else fetch_open_api h url

  unfoldable pub open_api_status : List Call → ApiProduct → OpenApiResult
  unfolding keep_or_fetch
  open_api_status h product = elim (open_api_url product) [
    | none ↦ (none, none)
    | some url ↦
        keep_or_fetch h product url product.status.open_api
          (d.meta.find product.status.conditions condition_open_api_spec_ready)
  ]

-- openAPISpecReadyCondition
unfoldable pub open_api_spec_ready_condition : OpenApiResult → Option Condition
open_api_spec_ready_condition (none, none) = none
open_api_spec_ready_condition (some spec, some e) =
    if spec.raw == ""
    then some (bare_condition condition_open_api_spec_ready no_false e.reason e.message)
    else some (
        bare_condition condition_open_api_spec_ready yes_true "SpecFetched"
          "OpenAPI spec was successfully fetched")
open_api_spec_ready_condition _ = some (
    bare_condition condition_open_api_spec_ready yes_true "SpecFetched"
      "OpenAPI spec was successfully fetched")
