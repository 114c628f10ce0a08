-- ===== src/Product/Endpoints.antt =====
-- Where the token endpoint of a product comes from.
use developer_portal_control.Prelude.{
  String, Option, none, some, List, ◌≡◌, ◌≢◌, refl, ap, ◌⊎◌, inl, inr, ◌==◌, eq_iff, arith,
  Bool-cases, nat_eq,
}
use mathlib.Core.Path.{subst}
use mathlib.Core.Option.{some-injective}
use developer_portal_control.Prelude.Outcome.{Result, ok, err}
use developer_portal_control.Api.External.{AuthSchemeSpec}
use developer_portal_control.Api.Product.{ApiProduct, OidcDiscoveryStatus}
use developer_portal_control.Deps.{Texts}
use developer_portal_control.Client.{Call}
use developer_portal_control.Product.Web.{
  Web, Exchange, not_made, not_answered, answered, DiscoveryDocument,
}
use developer_portal_control.Product.Oidc.{
  well_known_url, status_ok, checked_document, document_of, fetch_discovery,
  extract_issuer_url_from_auth_scheme, fetched_status, oidc_status_of, oidc_discovery_status,
  order_of,
}

module _ (texts : Texts) (web : Web) where
  -- The exchange was answered with status 200 and a document that names this endpoint.
  abbrev pub IsDocument : Exchange → String → Type 0
  IsDocument x endpoint =
      (body : Result String) × (doc : DiscoveryDocument) × (x ≡ answered status_ok body)
      × (web.decode body ≡ ok doc)
      × (doc.token_endpoint ≡ endpoint)
      × (endpoint ≢ "")

  checked-eq-ok :
      (r : Result DiscoveryDocument) (doc : DiscoveryDocument)
      → checked_document texts web r ≡ ok doc
      → (r ≡ ok doc) × (doc.token_endpoint ≢ "")
  unfolding checked_document
  checked-eq-ok (err e) doc h = absurd (ground arith)
  checked-eq-ok (ok x) doc h = elim (Bool-cases (x.token_endpoint == "")) [
    | inl e ↦ absurd (ground arith)
    | inr e ↦ (ground arith, λ q. ground (arith, eq_iff x.token_endpoint ""))
  ]

  answer-IsDocument :
      (x : Exchange) (doc : DiscoveryDocument)
      → document_of texts web x ≡ ok doc
      → IsDocument x doc.token_endpoint
  unfolding document_of
  answer-IsDocument (not_made e) doc h = absurd (ground arith)
  answer-IsDocument (not_answered e) doc h = absurd (ground arith)
  answer-IsDocument (answered code body) doc h = elim (Bool-cases (nat_eq code status_ok)) [
    | inr e ↦ absurd (ground arith)
    | inl e ↦
        let (p, n) = checked-eq-ok (web.decode body) doc (ground arith) in
        (body, doc, ground arith, p, refl, n)
  ]

  module _ (h : List Call) where
    fetched-IsDocument :
        (url : String) (r : Result DiscoveryDocument) (x : OidcDiscoveryStatus)
        → fetch_discovery texts web h url ≡ r
        → (fetched_status texts web h r).0 ≡ some x
        → IsDocument (web.exchange h (well_known_url url)) x.token_endpoint
    unfolding fetch_discovery
    fetched-IsDocument url (err e) x p q = cc
    fetched-IsDocument url (ok doc) x p q =
        subst (IsDocument (web.exchange h (well_known_url url))) (ap token (some-injective _ _ q))
          (answer-IsDocument (web.exchange h (well_known_url url)) doc p)
      where
        token : OidcDiscoveryStatus → String
        token s = s.token_endpoint

    status-IsDocument :
        (url : String) (old : Option OidcDiscoveryStatus) (existing : String)
        (x : OidcDiscoveryStatus)
        → (oidc_status_of texts web h url old existing).0 ≡ some x
        → (old ≡ some x) ⊎ IsDocument (web.exchange h (well_known_url url)) x.token_endpoint
    unfolding oidc_status_of
    status-IsDocument url none existing x q = elim (Bool-cases (url == "")) [
      | inl e ↦ absurd (ground arith)
      | inr e ↦ inr (fetched-IsDocument url (fetch_discovery texts web h url) x refl (ground arith))
    ]
    status-IsDocument url (some old) existing x q = elim (Bool-cases (url == "")) [
      | inl e ↦ inl (ground arith)
      | inr e ↦ elim (Bool-cases (existing == url)) [
        | inl f ↦ inl (ground arith)
        | inr f ↦
            inr (fetched-IsDocument url (fetch_discovery texts web h url) x refl (ground arith))
      ]
    ]

    -- The endpoint that a product gets is the one that it had, or one that is not empty and stands in
    -- the document which the issuer of the discovered scheme serves at its well-known URL with
    -- status 200.
    pub endpoint-IsDocument :
        (product : ApiProduct) (scheme : Option AuthSchemeSpec) (x : OidcDiscoveryStatus)
        → (oidc_discovery_status texts web h product scheme).0 ≡ some x
        → (product.status.oidc_discovery ≡ some x)
          ⊎ IsDocument
              (web.exchange h (
                well_known_url
                  (extract_issuer_url_from_auth_scheme (order_of web h product 0) scheme)))
              x.token_endpoint
    unfolding oidc_discovery_status
    endpoint-IsDocument product scheme x q =
        status-IsDocument (extract_issuer_url_from_auth_scheme (order_of web h product 0) scheme)
          product.status.oidc_discovery
          (extract_issuer_url_from_auth_scheme (order_of web h product 1)
            product.status.discovered_auth_scheme)
          x q
