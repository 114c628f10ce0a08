-- ===== src/KeyStatus/Reordered.antt =====
-- What the status of a key shows, when the ranges over maps visit the entries in another order.
use mathlib.Core.Path.{fun_ext}
use developer_portal_control.Prelude.{
  ℕ, String, Option, none, some, ◌≡◌, refl, ap, inl, inr, In, Option-cases, Bool-cases,
}
use developer_portal_control.Prelude.Outcome.{Result, ok, err, Result-cases, is_not_found, ◌>>=◌}
use developer_portal_control.Api.External.{AuthenticationSpec, AuthSchemeSpec, Ranges, Secret}
use developer_portal_control.Api.Key.{ApiKey, api_product_key}
use developer_portal_control.Api.Product.{ApiProduct}
use developer_portal_control.Deps.{Deps}
use developer_portal_control.Client.{Snapshot, reordered}
use developer_portal_control.Helper.{get_kuadrant_namespace}
use developer_portal_control.KeyStatus.Failures.{
  secret_key, api_key_auth_methods, check_auth_scheme, check_entry, check_secret, check_product,
  failed_at, calculate_failed_condition,
}
use developer_portal_control.KeyStatus.Methods.{
  TakesKey, methods-TakesKey, check_auth_methods-eq, first_method-eq,
}
use developer_portal_control.KeyStatus.Status.{get_api_product, calculate_auth_scheme}

-- All methods of the discovered scheme that take an API key agree on what a key's status shows of them.
abbrev pub HasOneScheme : Deps → Snapshot → ApiKey → Type 0
HasOneScheme d s key =
    (product : ApiProduct) (scheme : AuthSchemeSpec) (v w : AuthenticationSpec)
    → s.get_product (api_product_key key) ≡ ok product
    → product.status.discovered_auth_scheme ≡ some scheme
    → TakesKey d scheme v
    → TakesKey d scheme w
    → (v.api_key ≡ w.api_key) × (v.credentials ≡ w.credentials)

module _ (d : Deps) (s : Snapshot) (o : Ranges) (key : ApiKey) where
  methods_there :
      (n : ℕ) (scheme : AuthSchemeSpec) (v : AuthenticationSpec)
      → In v (api_key_auth_methods d (reordered s o) key n scheme)
      → In v (api_key_auth_methods d s key n scheme)
  methods_there n scheme v i =
      (methods-TakesKey d s key n scheme v).1
        ((methods-TakesKey d (reordered s o) key n scheme v).0 i)

  methods_back :
      (n : ℕ) (scheme : AuthSchemeSpec) (v : AuthenticationSpec)
      → In v (api_key_auth_methods d s key n scheme)
      → In v (api_key_auth_methods d (reordered s o) key n scheme)
  methods_back n scheme v i =
      (methods-TakesKey d (reordered s o) key n scheme v).1
        ((methods-TakesKey d s key n scheme v).0 i)

  scheme_reordered :
      (x : Option AuthSchemeSpec)
      → check_auth_scheme d (reordered s o) key x ≡ check_auth_scheme d s key x
  unfolding check_auth_scheme
  scheme_reordered none = refl
  scheme_reordered (some scheme) =
      check_auth_methods-eq _ _ (methods_there 0 scheme) (methods_back 0 scheme) d key

  entry_reordered :
      (product : ApiProduct) (x : Option String)
      → check_entry d (reordered s o) key product x ≡ check_entry d s key product x
  unfolding check_entry
  entry_reordered product none = refl
  entry_reordered product (some value) =
      rw (scheme_reordered product.status.discovered_auth_scheme) refl

  secret_reordered :
      (product : ApiProduct) (r : Result Secret)
      → check_secret d (reordered s o) key product r ≡ check_secret d s key product r
  unfolding check_secret
  secret_reordered product (err e) = refl
  secret_reordered product (ok secret) = ap ok (entry_reordered product _)

  product_reordered :
      (r : Result ApiProduct) → check_product d (reordered s o) key r ≡ check_product d s key r
  unfolding check_product
  product_reordered (err e) = refl
  product_reordered (ok product) =
      rw (secret_reordered product (s.get_secret (secret_key key))) refl

  at_reordered :
      (namespace : String) → failed_at d (reordered s o) key namespace ≡ failed_at d s key namespace
  unfolding failed_at
  at_reordered namespace = rw (product_reordered (s.get_product (api_product_key key))) refl

  -- No failure depends on the order in which maps are visited.
  pub failed_reordered :
      calculate_failed_condition d (reordered s o) key ≡ calculate_failed_condition d s key
  unfolding calculate_failed_condition get_kuadrant_namespace
  failed_reordered = ap (λ f. get_kuadrant_namespace s >>= f) (fun_ext at_reordered)

  pub auth_reordered :
      HasOneScheme d s key
      → calculate_auth_scheme d (reordered s o) key ≡ calculate_auth_scheme d s key
  unfolding calculate_auth_scheme get_api_product
  auth_reordered one = elim (Result-cases (s.get_product (api_product_key key))) [
    | inr (x, e) ↦ elim (Bool-cases (is_not_found x)) [
      | inl t ↦ rw (e, t) refl
      | inr f ↦ rw (e, f) refl
    ]
    | inl (product, e) ↦ elim (Option-cases product.status.discovered_auth_scheme) [
      | inl p ↦ rw (e, p) refl
      | inr (scheme, p) ↦
          rw (e, p)
            (ap ok (
              first_method-eq _ _ (methods_there 1 scheme) (methods_back 1 scheme) (λ v w i j.
                one product scheme v w e p ((methods-TakesKey d (reordered s o) key 1 scheme v).0 i)
                  ((methods-TakesKey d (reordered s o) key 1 scheme w).0 j))))
    ]
  ]
