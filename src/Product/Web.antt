-- ===== src/Product/Web.antt =====
-- HTTPClient in apiproduct_controller.go and in internal/oidc/discovery.go: the web as a parameter.
use developer_portal_control.Prelude.{String, ℕ, List}
use developer_portal_control.Prelude.Outcome.{Error, Result}
use developer_portal_control.Api.External.{Ranges}
use developer_portal_control.Client.{Call}

-- DiscoveryDocument
pub record DiscoveryDocument : Type 0 where
  pub issuer : String
  pub token_endpoint : String

-- http.NewRequestWithContext and HTTPClient.Do: the request cannot be made, there is no response, or
-- there is one with a status code and a body of which the reader is left to `Web`.
pub data Exchange : Type 0 where
  not_made not_answered : Error → Exchange
  answered : ℕ → (body : Result String) → Exchange

-- A GET of a URL, after the writes made so far; the body is what io.ReadAll returns, as text; and
-- encoding/json's decoder on a body. With the answers of the web, what else may differ from one run to
-- the next: the orders in which the ranges over the maps of a product visit the entries.
pub record Web : Type 0 where
  pub exchange : List Call → String → Exchange
  pub decode : Result String → Result DiscoveryDocument
  pub ranges : List Call → Ranges
