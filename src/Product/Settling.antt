-- ===== src/Product/Settling.antt =====
-- The whole status of a product: once it has been calculated and written, it is calculated again.
use mathlib.Core.Path.{subst}
use developer_portal_control.Prelude.{
  String, ℕ, true, false, Option, none, some, List, ◌≡◌, refl, sym, inl, inr, arith, Bool-cases,
  eq_refl, ◌==◌,
}
use developer_portal_control.Prelude.Outcome.{Result, ok, err}
use developer_portal_control.Meta.{Condition}
use developer_portal_control.Api.Product.{OpenApiStatus, OidcDiscoveryStatus}
use developer_portal_control.Deps.{Deps, Texts}
use developer_portal_control.Client.{Call}
use developer_portal_control.Product.Web.{Web, DiscoveryDocument}
use developer_portal_control.Product.Oidc.{fetch_discovery, fetched_status, oidc_status_of}
use developer_portal_control.Product.OpenApi.{kept, open_api_spec_ready_condition, OpenApiSpecErr}

module _ (texts : Texts) (web again : Web) (h g : List Call) where
  fetched_some :
      (r : Result DiscoveryDocument)
      → (fetched_status texts web h r).1 ≡ none
      → (x : OidcDiscoveryStatus) × (fetched_status texts web h r ≡ (some x, none))
  fetched_some (ok doc) e = (record { token_endpoint = doc.token_endpoint }, refl)
  fetched_some (err e) p = cc

  -- What was discovered for this issuer is kept.
  oidc_kept :
      (url : String) (x : OidcDiscoveryStatus)
      → oidc_status_of texts again g url (some x) url ≡ (some x, none)
  unfolding oidc_status_of
  oidc_kept url x = elim (Bool-cases (url == "")) [
    | inl e ↦ rw e refl
    | inr e ↦ rw (e, eq_refl url) refl
  ]

  fetched_settles :
      (url : String)
      → (fetched_status texts web h (fetch_discovery texts web h url)).1 ≡ none
      → oidc_status_of texts again g url
          (fetched_status texts web h (fetch_discovery texts web h url)).0
          url
        ≡ fetched_status texts web h (fetch_discovery texts web h url)
  fetched_settles url e =
      let (x, p) = fetched_some (fetch_discovery texts web h url) e in
      subst (λ r. oidc_status_of texts again g url r.0 url ≡ r) (sym p) (oidc_kept url x)

  oidc_unset :
      (w : Web) (f : List Call) (url : String) (old : Option OidcDiscoveryStatus)
      (existing : String)
      → (url == "") ≡ true
      → oidc_status_of texts w f url old existing ≡ (old, none)
  unfolding oidc_status_of
  oidc_unset w f url none existing e = rw e refl
  oidc_unset w f url (some x) existing e = rw e refl

  oidc_fetches :
      (url existing : String)
      → (url == "") ≡ false
      → oidc_status_of texts web h url none existing
        ≡ fetched_status texts web h (fetch_discovery texts web h url)
  unfolding oidc_status_of
  oidc_fetches url existing e = rw e refl

  oidc_changes :
      (url existing : String) (x : OidcDiscoveryStatus)
      → (url == "") ≡ false
      → (existing == url) ≡ false
      → oidc_status_of texts web h url (some x) existing
        ≡ fetched_status texts web h (fetch_discovery texts web h url)
  unfolding oidc_status_of
  oidc_changes url existing x e f = rw (e, f) refl

  oidc_stays :
      (url existing : String) (x : OidcDiscoveryStatus)
      → (url == "") ≡ false
      → (existing == url) ≡ true
      → oidc_status_of texts web h url (some x) existing ≡ (some x, none)
  unfolding oidc_status_of
  oidc_stays url existing x e f = rw (e, f) refl

  settles_from :
      (url existing : String) (old : Option OidcDiscoveryStatus)
      → oidc_status_of texts web h url old existing
        ≡ fetched_status texts web h (fetch_discovery texts web h url)
      → (oidc_status_of texts web h url old existing).1 ≡ none
      → oidc_status_of texts again g url (oidc_status_of texts web h url old existing).0 url
        ≡ oidc_status_of texts web h url old existing
  settles_from url existing old e q =
      subst (λ r. oidc_status_of texts again g url r.0 url ≡ r) (sym e)
        (fetched_settles url (subst (λ r. r.1 ≡ none) e q))

  -- Where the discovery has not failed, it gives the same again, whatever the web would answer.
  pub oidc_status_settles :
      (url : String) (old : Option OidcDiscoveryStatus) (existing : String)
      → (oidc_status_of texts web h url old existing).1 ≡ none
      → oidc_status_of texts again g url (oidc_status_of texts web h url old existing).0 url
        ≡ oidc_status_of texts web h url old existing
  oidc_status_settles url old existing q = elim (Bool-cases (url == "")) [
    | inl e ↦
        subst (λ r. oidc_status_of texts again g url r.0 url ≡ r)
          (sym (oidc_unset web h url old existing e)) (oidc_unset again g url old url e)
    | inr e ↦ named e old q
  ]
    where
      named :
          (url == "") ≡ false
          → (o : Option OidcDiscoveryStatus) → (oidc_status_of texts web h url o existing).1 ≡ none
          → oidc_status_of texts again g url (oidc_status_of texts web h url o existing).0 url
            ≡ oidc_status_of texts web h url o existing
      named e none q = settles_from url existing none (oidc_fetches url existing e) q
      named e (some x) q = elim (Bool-cases (existing == url)) [
        | inl f ↦
            subst (λ r. oidc_status_of texts again g url r.0 url ≡ r)
              (sym (oidc_stays url existing x e f)) (oidc_kept url x)
        | inr f ↦ settles_from url existing (some x) (oidc_changes url existing x e f) q
      ]

-- Where a document stands with a condition, the condition that follows from what is kept is the same.
module _ (d : Deps) (web : Web) (now max_size : ℕ) where
  pub kept-ready :
      (s : OpenApiStatus) (e : Option OpenApiSpecErr) (v c : Condition)
      → open_api_spec_ready_condition (some s, e) ≡ some v
      → (c.status ≡ v.status) × (c.reason ≡ v.reason) × (c.message ≡ v.message)
      → open_api_spec_ready_condition (kept d web now max_size s c) ≡ some v
  unfolding open_api_spec_ready_condition
  kept-ready s none v c h k = ground arith
  kept-ready s (some x) v c h k = ground arith
