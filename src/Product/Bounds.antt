-- ===== src/Product/Bounds.antt =====
-- The OpenAPI document that a product keeps: its size, and that it is fetched once.
use Prim.Native.String.{len}
use developer_portal_control.Prelude.{
  String, ℕ, ◌≤◌, Option, none, some, List, ◌≡◌, refl, inl, inr, arith, Bool-cases, Option-cases,
  ltb, nat_eq,
}
use developer_portal_control.Prelude.Outcome.{Result, ok, err}
use developer_portal_control.Meta.{Condition}
use developer_portal_control.Api.Product.{ApiProduct, OpenApiStatus, condition_open_api_spec_ready}
use developer_portal_control.Deps.{Deps}
use developer_portal_control.Client.{Call}
use developer_portal_control.Product.Web.{Web, Exchange, not_made, not_answered, answered}
use developer_portal_control.Product.OpenApi.{
  status_of_body, status_of_exchange, fetch_open_api, is_fetched, kept, keep_or_fetch,
  open_api_status, open_api_url, is_status_false,
}

-- The document, where there is one, was fetched under this limit and is no longer, in bytes.
abbrev pub IsWithin : ℕ → Option OpenApiStatus → Type 0
IsWithin max_size none = Unit {0}
IsWithin max_size (some s) = (s.max_size_used ≡ max_size) × (len s.raw ≤ max_size)

-- The document is no longer than the limit under which it was fetched.
abbrev pub HasKept : Option OpenApiStatus → Type 0
HasKept none = Unit {0}
HasKept (some s) = len s.raw ≤ s.max_size_used

module _ (d : Deps) (web : Web) (now max_size : ℕ) where
  body-IsWithin :
      (body : Result String) → IsWithin max_size (status_of_body d web now max_size body).0
  unfolding status_of_body
  body-IsWithin (err e) = (refl, omega arith)
  body-IsWithin (ok body) = elim (Bool-cases (ltb max_size (len body))) [
    | inl e ↦ rw e (refl, omega arith)
    | inr e ↦ rw e (refl, ground arith)
  ]

  exchange-IsWithin :
      (url : String) (x : Exchange)
      → IsWithin max_size (status_of_exchange d web now max_size url x).0
  unfolding status_of_exchange
  exchange-IsWithin url (not_made e) = (refl, omega arith)
  exchange-IsWithin url (not_answered e) = (refl, omega arith)
  exchange-IsWithin url (answered code body) = elim (Bool-cases (nat_eq code 200)) [
    | inl e ↦ rw e (body-IsWithin body)
    | inr e ↦ rw e (refl, omega arith)
  ]

  fetch-IsWithin :
      (h : List Call) (url : String) → IsWithin max_size (fetch_open_api d web now max_size h url).0
  unfolding fetch_open_api
  fetch-IsWithin h url = exchange-IsWithin url (web.exchange h url)

  pub kept-eq : (old : OpenApiStatus) (c : Condition) → (kept d web now max_size old c).0 ≡ some old
  kept-eq old c = elim (Bool-cases (is_status_false c.status)) [
    | inl e ↦ rw e refl
    | inr e ↦ rw e refl
  ]

  keep-IsWithin :
      (h : List Call) (product : ApiProduct) (url : String) (o : Option OpenApiStatus)
      (c : Option Condition)
      → HasKept o
      → IsWithin max_size (keep_or_fetch d web now max_size h product url o c).0
  unfolding keep_or_fetch is_fetched
  keep-IsWithin h product url none c k = fetch-IsWithin h url
  keep-IsWithin h product url (some old) none k = fetch-IsWithin h url
  keep-IsWithin h product url (some old) (some c) k =
      elim (Bool-cases (is_fetched d web now max_size product old)) [
        | inl e ↦ rw (e, kept-eq old c) (ground arith, ground arith)
        | inr e ↦ rw e (fetch-IsWithin h url)
      ]

  -- If the document that a product has is no longer, in bytes, than the limit under which it was
  -- fetched, then the new status has no document or one that is no longer than the present limit and
  -- is recorded with it.
  pub open_api-IsWithin :
      (h : List Call) (product : ApiProduct)
      → HasKept product.status.open_api
      → IsWithin max_size (open_api_status d web now max_size h product).0
  unfolding open_api_status
  open_api-IsWithin h product k = elim (Option-cases (open_api_url product)) [
    | inl e ↦ rw (e, open_api_status) tt
    | inr (url, e) ↦
        rw (e, open_api_status)
          (keep-IsWithin h product url product.status.open_api
            (d.meta.find product.status.conditions condition_open_api_spec_ready) k)
  ]
