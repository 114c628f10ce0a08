-- ===== src/KeyStatus/Serviceable.antt =====
-- When calculateFailedCondition reports no failure, described by what is in the cluster.
use mathlib.Core.Path.{subst}
use mathlib.Core.Option.{some-injective}
use developer_portal_control.Prelude.{
  String, Option, none, some, List, [], ◌∷◌, ◌≡◌, sym, ap, ◌≢◌, ◌↔◌, ◌⊎◌, Bool-cases, inl, inr,
  refl, ◌==◌, eq_iff, arith, In,
}
use developer_portal_control.Prelude.Outcome.{Result, ok, err, ok-injective, ◌>>=◌}
use developer_portal_control.Lo.{lookup}
use developer_portal_control.Api.External.{Secret, AuthSchemeSpec, AuthenticationSpec}
use developer_portal_control.Api.Key.{ApiKey, api_product_key}
use developer_portal_control.Api.Product.{ApiProduct}
use developer_portal_control.Deps.{Deps}
use developer_portal_control.Client.{Snapshot}
use developer_portal_control.Helper.{get_kuadrant_namespace}
use developer_portal_control.KeyStatus.Methods.{TakesKey, methods-TakesKey}
use developer_portal_control.KeyStatus.Failures.{
  api_key_secret_key, secret_key, api_key_auth_methods, check_auth_methods, check_auth_scheme,
  check_entry, check_secret, check_product, calculate_failed_condition, failed_at,
}

-- The scheme has a method that takes an API key.
abbrev pub HasMethod : Deps → Option AuthSchemeSpec → Type 0
HasMethod d discovered =
    (scheme : AuthSchemeSpec) × (discovered ≡ some scheme)
    × (v : AuthenticationSpec) × TakesKey d scheme v

-- The secret has the key.
abbrev pub HasValue : Option String → Type 0
HasValue entry = (value : String) × (entry ≡ some value) × (value ≢ "")

abbrev pub HasCredentials : Deps → ApiProduct → Secret → Type 0
HasCredentials d product secret =
    HasValue (lookup api_key_secret_key secret.entries)
    × HasMethod d product.status.discovered_auth_scheme

abbrev pub IsServiceable : Deps → Snapshot → ApiKey → Type 0
IsServiceable d s key =
    ((namespace : String) × (get_kuadrant_namespace s ≡ ok namespace) × (namespace ≢ ""))
    × ((product : ApiProduct) × (s.get_product (api_product_key key) ≡ ok product)
        × (product.deletion_timestamp ≡ none)
        × ((key.spec.secret_ref ≡ "")
            ⊎ ((secret : Secret) × (s.get_secret (secret_key key) ≡ ok secret)
                × HasCredentials d product secret)))

module _ (d : Deps) where
  check_auth_methods_iff :
      (key : ApiKey) (ms : List AuthenticationSpec)
      → (check_auth_methods d key ms ≡ none) ↔ ((v : AuthenticationSpec) × In v ms)
  unfolding check_auth_methods
  check_auth_methods_iff key [] = (λ h. cc, λ (v, i). absurd i)
  check_auth_methods_iff key (m ∷ ms) = (λ h. (m, inl refl), λ i. refl)

  check_auth_scheme_iff :
      (s : Snapshot) (key : ApiKey) (o : Option AuthSchemeSpec)
      → (check_auth_scheme d s key o ≡ none) ↔ HasMethod d o
  unfolding check_auth_scheme
  check_auth_scheme_iff s key none = (λ h. cc, λ (m, e, v, t). cc)
  check_auth_scheme_iff s key (some scheme) =
      let (there, back) = check_auth_methods_iff key (api_key_auth_methods d s key 0 scheme) in
      (
        λ h. let (v, i) = there h in (scheme, refl, v, (methods-TakesKey d s key 0 scheme v).0 i),
        λ (x, e, v, t). back (
          v,
          (methods-TakesKey d s key 0 scheme v).1
              (subst (λ y. TakesKey d y v) (sym (some-injective _ _ e)) t),
        ),
      )

  check_entry_iff :
      (s : Snapshot) (key : ApiKey) (product : ApiProduct) (o : Option String)
      → (check_entry d s key product o ≡ none)
        ↔ (HasValue o × HasMethod d product.status.discovered_auth_scheme)
  unfolding check_entry
  check_entry_iff s key product none = (λ h. cc, λ ((v, e, n), m). cc)
  check_entry_iff s key product (some value) = (has, served)
    where
      scheme_iff :
          (check_auth_scheme d s key product.status.discovered_auth_scheme ≡ none)
          ↔ HasMethod d product.status.discovered_auth_scheme
      scheme_iff = check_auth_scheme_iff s key product.status.discovered_auth_scheme

      has :
          check_entry d s key product (some value) ≡ none
          → HasValue (some value) × HasMethod d product.status.discovered_auth_scheme
      has h = (
        (value, refl, ground (arith, eq_iff value "")),
        scheme_iff.0 (ground (arith, eq_iff value "")),
      )

      served :
          HasValue (some value) × HasMethod d product.status.discovered_auth_scheme
          → check_entry d s key product (some value) ≡ none
      served ((v, p, n), m) = ground (arith, eq_iff value "", scheme_iff.1 m)

  -- What the check of the secret and of the product asks for.
  abbrev HasSecret : Snapshot → ApiKey → ApiProduct → Type 0
  HasSecret s key product =
      (key.spec.secret_ref ≡ "")
      ⊎ ((secret : Secret) × (s.get_secret (secret_key key) ≡ ok secret)
          × HasCredentials d product secret)

  check_secret_iff :
      (s : Snapshot) (key : ApiKey) (product : ApiProduct) (r : Result Secret)
      → (check_secret d s key product r ≡ ok none)
        ↔ ((secret : Secret) × (r ≡ ok secret) × HasCredentials d product secret)
  unfolding check_secret
  check_secret_iff s key product (err e) = (λ h. absurd (ground arith), λ (x, p, c). cc)
  check_secret_iff s key product (ok secret) =
      let (there, back) =
        check_entry_iff s key product (lookup api_key_secret_key secret.entries) in
      (
        λ h. (secret, refl, there (ok-injective h)),
        λ (x, p, c). ap ok (back (subst (HasCredentials d product) (sym (ok-injective p)) c)),
      )

  check_product_iff :
      (s : Snapshot) (key : ApiKey) (r : Result ApiProduct)
      → (check_product d s key r ≡ ok none) ↔ (
          (product : ApiProduct) × (r ≡ ok product)
          × (product.deletion_timestamp ≡ none)
          × HasSecret s key product)
  unfolding check_product
  check_product_iff s key (err e) = (λ h. absurd (ground arith), λ (x, p, t, c). cc)
  check_product_iff s key (ok product) = (
    λ h. (product, refl, ground arith, fetched h),
    λ (x, p, t, c). let (t', c') = subst Good (sym (ok-injective p)) (t, c) in accepted t' c',
  )
    where
      Good : ApiProduct → Type 0
      Good x = (x.deletion_timestamp ≡ none) × HasSecret s key x

      secret_iff : (check_secret d s key product (s.get_secret (secret_key key)) ≡ ok none) ↔ (
          (secret : Secret) × (s.get_secret (secret_key key) ≡ ok secret)
          × HasCredentials d product secret)
      secret_iff = check_secret_iff s key product (s.get_secret (secret_key key))

      fetched : check_product d s key (ok product) ≡ ok none → HasSecret s key product
      fetched h = elim (Bool-cases (key.spec.secret_ref == "")) [
        | inl e ↦ inl ((eq_iff key.spec.secret_ref "").0 e)
        | inr e ↦ inr (secret_iff.0 (ground arith))
      ]

      accepted :
          product.deletion_timestamp ≡ none
          → HasSecret s key product
          → check_product d s key (ok product) ≡ ok none
      accepted t (inl e) = ground (arith, eq_iff key.spec.secret_ref "")
      accepted t (inr x) = ground (arith, secret_iff.1 x)

  failed_at_iff :
      (s : Snapshot) (key : ApiKey) (r : Result String)
      → ((r >>= failed_at d s key) ≡ ok none) ↔ (
          ((namespace : String) × (r ≡ ok namespace) × (namespace ≢ ""))
          × ((product : ApiProduct) × (s.get_product (api_product_key key) ≡ ok product)
              × (product.deletion_timestamp ≡ none)
              × HasSecret s key product))
  unfolding failed_at
  failed_at_iff s key (err e) = (λ h. absurd (ground arith), λ ((n, p, q), c). cc)
  failed_at_iff s key (ok namespace) = (there, back)
    where
      product_iff : (check_product d s key (s.get_product (api_product_key key)) ≡ ok none) ↔ (
          (product : ApiProduct) × (s.get_product (api_product_key key) ≡ ok product)
          × (product.deletion_timestamp ≡ none)
          × HasSecret s key product)
      product_iff = check_product_iff s key (s.get_product (api_product_key key))

      there :
          failed_at d s key namespace ≡ ok none
          → ((n : String) × (◌≡◌ {A = Result String} (ok namespace) (ok n)) × (n ≢ ""))
            × ((product : ApiProduct) × (s.get_product (api_product_key key) ≡ ok product)
                × (product.deletion_timestamp ≡ none)
                × HasSecret s key product)
      there h = (
        (namespace, refl, ground (arith, eq_iff namespace "")),
        product_iff.0 (ground (arith, eq_iff namespace "")),
      )

      back :
          ((n : String) × (◌≡◌ {A = Result String} (ok namespace) (ok n)) × (n ≢ ""))
            × ((product : ApiProduct) × (s.get_product (api_product_key key) ≡ ok product)
                × (product.deletion_timestamp ≡ none)
                × HasSecret s key product)
          → failed_at d s key namespace ≡ ok none
      back ((n, p, q), c) = ground (arith, eq_iff namespace "", product_iff.1 c)

  -- No failure is reported exactly if Kuadrant is there, the product is there and not being deleted,
  -- and, where the key names a secret, the secret holds a key that is not empty and the product has
  -- a discovered scheme with a method that takes an API key.
  pub failed-none_iff :
      (s : Snapshot) (key : ApiKey)
      → (calculate_failed_condition d s key ≡ ok none) ↔ IsServiceable d s key
  unfolding calculate_failed_condition
  failed-none_iff s key = failed_at_iff s key (get_kuadrant_namespace s)
