-- ===== src/Product/Fetches.antt =====
-- An OpenAPI document that was fetched is kept.
use Prim.Native.String.{len}
use mathlib.Core.Path.{subst}
use developer_portal_control.Prelude.{
  String, ℕ, Option, none, some, List, ◌≡◌, refl, sym, ap, ◌∙◌, inl, inr, arith, Bool-cases,
  Option-cases, nat_eq, ltb, if◌then◌else◌, eq_iff, ◌==◌,
}
use developer_portal_control.Prelude.Outcome.{Result, ok, err}
use developer_portal_control.Meta.{Condition, merged}
use developer_portal_control.Api.External.{PlanPolicy, AuthPolicy}
use developer_portal_control.Api.Product.{ApiProduct, OpenApiStatus, condition_open_api_spec_ready}
use developer_portal_control.Deps.{Deps}
use developer_portal_control.Client.{Call}
use developer_portal_control.Product.Web.{Web, Exchange, not_made, not_answered, answered}
use developer_portal_control.Product.OpenApi.{
  status_of_body, status_of_exchange, fetch_open_api, is_fetched, keep_or_fetch, open_api_status,
  open_api_url, open_api_spec_ready_condition, OpenApiResult, OpenApiSpecErr,
}
use developer_portal_control.Product.Bounds.{kept-eq}
use developer_portal_control.Product.Status.{
  discovered_conditions, status_of, with_open_api_condition,
}

-- There is a document, recorded with the limit.
abbrev pub IsRecorded : ℕ → Option OpenApiStatus → Type 0
IsRecorded max_size o = (s : OpenApiStatus) × (o ≡ some s) × (s.max_size_used ≡ max_size)

module _ (d : Deps) (web : Web) (now max_size : ℕ) where
  body-IsRecorded :
      (body : Result String) → IsRecorded max_size (status_of_body d web now max_size body).0
  unfolding status_of_body
  body-IsRecorded (err e) = (_, refl, refl)
  body-IsRecorded (ok body) = elim (Bool-cases (ltb max_size (len body))) [
    | inl e ↦ rw e (_, refl, refl)
    | inr e ↦ rw e (_, refl, refl)
  ]

  exchange-IsRecorded :
      (url : String) (x : Exchange)
      → IsRecorded max_size (status_of_exchange d web now max_size url x).0
  unfolding status_of_exchange
  exchange-IsRecorded url (not_made e) = (_, refl, refl)
  exchange-IsRecorded url (not_answered e) = (_, refl, refl)
  exchange-IsRecorded url (answered code body) = elim (Bool-cases (nat_eq code 200)) [
    | inl e ↦ rw e (body-IsRecorded body)
    | inr e ↦ rw e (_, refl, refl)
  ]

  fetch-IsRecorded :
      (h : List Call) (url : String)
      → IsRecorded max_size (fetch_open_api d web now max_size h url).0
  unfolding fetch_open_api
  fetch-IsRecorded h url = exchange-IsRecorded url (web.exchange h url)

  pub keep-IsRecorded :
      (h : List Call) (product : ApiProduct) (url : String) (o : Option OpenApiStatus)
      (c : Option Condition)
      → IsRecorded max_size (keep_or_fetch d web now max_size h product url o c).0
  unfolding keep_or_fetch is_fetched
  keep-IsRecorded h product url none c = fetch-IsRecorded h url
  keep-IsRecorded h product url (some old) none = fetch-IsRecorded h url
  keep-IsRecorded h product url (some old) (some c) =
      elim (Bool-cases (is_fetched d web now max_size product old)) [
        | inl e ↦ rw (e, kept-eq d web now max_size old c) (old, refl, ground arith)
        | inr e ↦ rw e (fetch-IsRecorded h url)
      ]

  -- Where it finds a document of this generation and limit, and a condition, it keeps the document.
  keeps :
      (h : List Call) (product : ApiProduct) (url : String) (old : OpenApiStatus) (c : Condition)
      → product.generation ≡ product.status.observed_generation
      → old.max_size_used ≡ max_size
      → (keep_or_fetch d web now max_size h product url (some old) (some c)).0 ≡ some old
  unfolding keep_or_fetch is_fetched
  keeps h product url old c g m = elim (Bool-cases (is_fetched d web now max_size product old)) [
    | inl e ↦ rw e (kept-eq d web now max_size old c)
    | inr e ↦ absurd (ground arith)
  ]

-- With a document there is a condition.
pub condition_there :
    (s : OpenApiStatus) (e : Option OpenApiSpecErr)
    → (c : Condition) × (open_api_spec_ready_condition (some s, e) ≡ some c)
      × (c.type ≡ condition_open_api_spec_ready)
unfolding open_api_spec_ready_condition
condition_there s none = (_, refl, refl)
condition_there s (some e) = elim (Bool-cases (s.raw == "")) [
  | inl q ↦ rw q (_, refl, refl)
  | inr q ↦ rw q (_, refl, refl)
]

module _ (d : Deps) (now : ℕ) where
  condition-found :
      (url : String) (r : OpenApiResult) (s : OpenApiStatus) (cs : List Condition)
      → r.0 ≡ some s
      → (c : Condition) × (d.meta.find
            (with_open_api_condition d now (some url) r cs)
            condition_open_api_spec_ready
          ≡ some c)
  unfolding with_open_api_condition
  condition-found url (o, x) s cs e =
      let (c, p, t) = condition_there s x in
      let set_there =
        d.meta.find-set now cs c condition_open_api_spec_ready
        ∙ ap
            (λ b.
              if b
              then some (merged now (d.meta.find cs c.type) c)
              else d.meta.find cs condition_open_api_spec_ready)
            ((eq_iff c.type condition_open_api_spec_ready).1 t) in
      (merged now (d.meta.find cs c.type) c, rw (e, with_open_api_condition, p) set_there)

module _ (d : Deps) (web : Web) (now max_size : ℕ) where
  pub opened :
      (h : List Call) (product : ApiProduct) (url : String)
      → open_api_url product ≡ some url
      → open_api_status d web now max_size h product
        ≡ keep_or_fetch d web now max_size h product url product.status.open_api
            (d.meta.find product.status.conditions condition_open_api_spec_ready)
  unfolding open_api_status
  opened h product url e = rw (open_api_status, e) refl

  stays :
      (h : List Call) (product : ApiProduct) (url : String) (s : OpenApiStatus) (c : Condition)
      → open_api_url product ≡ some url
      → product.generation ≡ product.status.observed_generation
      → product.status.open_api ≡ some s
      → s.max_size_used ≡ max_size
      → d.meta.find product.status.conditions condition_open_api_spec_ready ≡ some c
      → (open_api_status d web now max_size h product).0 ≡ some s
  unfolding keep_or_fetch
  stays h product url s c e g o m f =
      rw (opened h product url e, o, f) (keeps d web now max_size h product url s c g m)

module _ (d : Deps) (web again : Web) (now later max_size : ℕ) where
  -- Once the status of a product has been calculated and written, its document stays: whatever the
  -- web would answer by then, at any later time and under the same limit, the product with that
  -- status keeps the document that it has, or has none if it names no URL.
  pub document_settles :
      (h g : List Call) (product : ApiProduct) (plan : Option PlanPolicy)
      (policy : Option AuthPolicy) (plan_cond ready_cond : Condition)
      → let status = status_of d web now max_size h product plan plan_cond policy ready_cond in
        (open_api_status d again later max_size g (record product { status = status })).0
        ≡ status.open_api
  unfolding status_of open_api_status
  document_settles h g product plan policy plan_cond ready_cond =
      elim (Option-cases (open_api_url product)) [
        | inl e ↦ rw (e, open_api_status) refl
        | inr (url, e) ↦
            let (s, p, m) =
              keep-IsRecorded d web now max_size h product url product.status.open_api
                (d.meta.find product.status.conditions condition_open_api_spec_ready) in
            let q = ap (λ r. r.0) (opened d web now max_size h product url e) ∙ p in
            let (c, f) =
              condition-found d now url (open_api_status d web now max_size h product) s
                (discovered_conditions d web now max_size h product plan_cond policy ready_cond)
                q in
            stays d again later max_size g
              (record product {
                status = status_of d web now max_size h product plan plan_cond policy ready_cond;
              })
              url s c e refl q m
              (subst
                (λ o.
                  d.meta.find
                    (with_open_api_condition d now o (open_api_status d web now max_size h product)
                      (discovered_conditions d web now max_size h product plan_cond policy
                        ready_cond))
                    condition_open_api_spec_ready
                  ≡ some c)
                (sym e) f)
            ∙ sym q
      ]
