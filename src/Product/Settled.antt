-- ===== src/Product/Settled.antt =====
-- The status of a product, once more from what was calculated, by the same policies and the same route.
use mathlib.Core.Path.{subst}
use developer_portal_control.Prelude.{
  String, ℕ, false, Option, none, some, List, [], ◌∷◌, ◌≡◌, refl, sym, ap, ◌∙◌, inl, inr,
  Option-cases, ◌==◌, any,
}
use developer_portal_control.Meta.{Condition}
use developer_portal_control.Meta.Sequence.{HasDistinctTypes, set_all}
use developer_portal_control.Api.External.{AuthPolicy, PlanPolicy}
use developer_portal_control.Api.Product.{
  ApiProduct, ApiProductStatus, OidcDiscoveryStatus, condition_ready,
  condition_plan_policy_discovered, condition_open_api_spec_ready,
}
use developer_portal_control.Prelude.Outcome.{Error}
use developer_portal_control.Deps.{Deps}
use developer_portal_control.Client.{Call}
use developer_portal_control.Product.Web.{Web}
use developer_portal_control.Product.Oidc.{
  oidc_discovery_status, oidc_discovered_condition, extract_issuer_url_from_auth_scheme, order_of,
}
use developer_portal_control.Product.OpenApi.{
  open_api_spec_ready_condition, open_api_status, open_api_url,
}
use developer_portal_control.Product.Status.{
  auth_policy_discovered_condition, status_of, discovered_scheme, with_open_api_condition,
}
use developer_portal_control.Product.Fetches.{
  document_settles, keep-IsRecorded, condition_there, opened,
}
use developer_portal_control.Product.Stable.{
  assembled, auth-type, oidc-type, distinct_four, distinct_types, kept_again, settles_without,
  settles_with, found_with,
}
use developer_portal_control.Api.Object.{key_of}
use developer_portal_control.Product.Issuers.{HasOneIssuer, issuer-reordered, condition-reordered}
use developer_portal_control.Product.Settling.{oidc_status_settles, kept-ready}

module _ (d : Deps) (web again : Web) (now later max_size : ℕ) (h g : List Call)
    (product : ApiProduct) (plan : Option PlanPolicy) (policy : Option AuthPolicy)
    (plan_cond ready_cond : Condition) where
  abbrev written : ApiProductStatus
  written = status_of d web now max_size h product plan plan_cond policy ready_cond

  abbrev again_product : ApiProduct
  again_product = record product { status = written }

  abbrev auth_cond : Condition
  auth_cond = auth_policy_discovered_condition d policy

  abbrev oidc_cond : Condition
  oidc_cond =
      oidc_discovered_condition d.texts (order_of web h product 2) (discovered_scheme d policy)
        (oidc_discovery_status d.texts web h product (discovered_scheme d policy)).1

  module _ (one : HasOneIssuer (discovered_scheme d policy)) where
    -- Where the scheme has one issuer and the discovery has not failed, it gives the same again.
    oidc_again :
        (oidc_discovery_status d.texts web h product (discovered_scheme d policy)).1 ≡ none
        → oidc_discovery_status d.texts again g again_product (discovered_scheme d policy)
          ≡ oidc_discovery_status d.texts web h product (discovered_scheme d policy)
    unfolding status_of oidc_discovery_status
    oidc_again e =
        let scheme = discovered_scheme d policy in
        let key = key_of product.metadata in
        rw
          (
            issuer-reordered (again.ranges g) (web.ranges h) key 0 0 scheme one,
            issuer-reordered (again.ranges g) (web.ranges h) key 1 0 scheme one,
          )
          (oidc_status_settles d.texts web again h g
            (extract_issuer_url_from_auth_scheme (order_of web h product 0) scheme)
            product.status.oidc_discovery
            (extract_issuer_url_from_auth_scheme (order_of web h product 1)
              product.status.discovered_auth_scheme)
            e)

    condition_again :
        (oidc_discovery_status d.texts web h product (discovered_scheme d policy)).1 ≡ none
        → oidc_discovered_condition d.texts
            (order_of again g again_product 2)
            (discovered_scheme d policy)
            (oidc_discovery_status d.texts again g again_product (discovered_scheme d policy)).1
          ≡ oidc_cond
    condition_again e =
        condition-reordered (again.ranges g) (web.ranges h) (key_of product.metadata) 2 2 d.texts
          (discovered_scheme d policy) _ one
        ∙ ap
            (λ (r : Option OidcDiscoveryStatus × Option Error).
              oidc_discovered_condition d.texts (order_of web h product 2)
                (discovered_scheme d policy) r.1)
            (oidc_again e)

  -- With a document, the next calculation gives it again, and with the same condition.
  document_again :
      (url : String)
      → open_api_url product ≡ some url
      → (v : Condition) × (v.type ≡ condition_open_api_spec_ready)
        × (open_api_spec_ready_condition (open_api_status d web now max_size h product) ≡ some v)
        × (open_api_spec_ready_condition (open_api_status d again later max_size g again_product)
            ≡ some v)
  unfolding status_of set_all
  document_again url e =
      let r = open_api_status d web now max_size h product in
      let (s, p, m) =
        keep-IsRecorded d web now max_size h product url product.status.open_api
          (d.meta.find product.status.conditions condition_open_api_spec_ready) in
      let q = ap (λ r. r.0) (opened d web now max_size h product url e) ∙ p in
      let (v, f, t) = condition_there s r.1 in
      let first = subst (λ o. open_api_spec_ready_condition (o, r.1) ≡ some v) (sym q) f in
      let (c, found, s₁, s₂, s₃) =
        found_with d now later product.status.conditions plan_cond auth_cond oidc_cond ready_cond
          url r v first t in
      (
        v,
        t,
        first,
        rw (kept_again d again later max_size g again_product url s c e refl q m (rw e found))
            (kept-ready d again later max_size s r.1 v c f (s₁, s₂, s₃)),
      )

  abbrev all_set : List Condition
  all_set = plan_cond ∷ auth_cond ∷ oidc_cond ∷ ready_cond ∷ []

  -- The conditions of both calculations, where the product names this URL, or none.
  abbrev Settles : Option String → Type 0
  Settles url =
      let before = set_all d.meta now product.status.conditions all_set in
      let new =
        with_open_api_condition d now url (open_api_status d web now max_size h product) before in
      with_open_api_condition d later url (open_api_status d again later max_size g again_product)
        (set_all d.meta later new all_set)
      ≡ new

  module _ (h₁ : plan_cond.type ≡ condition_plan_policy_discovered)
      (h₂ : ready_cond.type ≡ condition_ready) where
    five_distinct :
        (v : Condition)
        → v.type ≡ condition_open_api_spec_ready
        → HasDistinctTypes (plan_cond ∷ auth_cond ∷ oidc_cond ∷ ready_cond ∷ v ∷ [])
    five_distinct v t =
        distinct_types plan_cond auth_cond oidc_cond ready_cond v h₁ (auth-type d policy)
          (oidc-type d.texts _ _ _) h₂ t

    four_distinct :
        HasDistinctTypes all_set
        × (any (λ e. e.type == condition_open_api_spec_ready) all_set ≡ false)
    four_distinct =
        distinct_four plan_cond auth_cond oidc_cond ready_cond h₁ (auth-type d policy)
          (oidc-type d.texts _ _ _) h₂

    conditions_again : Settles (open_api_url product)
    conditions_again = elim (Option-cases (open_api_url product)) [
      | inl e ↦ subst Settles (sym e) (
          settles_without d now later product.status.conditions plan_cond auth_cond oidc_cond
            ready_cond _ _ four_distinct.0 four_distinct.1)
      | inr (url, e) ↦
          let (v, t, f, a) = document_again url e in
          subst Settles (sym e) (
            settles_with d now later product.status.conditions plan_cond auth_cond oidc_cond
              ready_cond url _ _ v f a (five_distinct v t))
    ]

    -- Whatever the web would answer, and at any later time.
    pub status_settles :
        HasOneIssuer (discovered_scheme d policy)
        → (oidc_discovery_status d.texts web h product (discovered_scheme d policy)).1 ≡ none
        → status_of d again later max_size g again_product plan plan_cond policy ready_cond
          ≡ written
    unfolding status_of set_all
    status_settles one e =
        assembled product.generation _ (discovered_scheme d policy)
          (document_settles d web again now later max_size h g product plan policy plan_cond
            ready_cond)
          (ap
              (λ z.
                with_open_api_condition d later (open_api_url product)
                  (open_api_status d again later max_size g again_product)
                  (set_all d.meta later written.conditions
                    (plan_cond ∷ auth_cond ∷ z ∷ ready_cond ∷ [])))
              (condition_again one e)
            ∙ conditions_again)
          (ap (λ r. r.0) (oidc_again one e))
