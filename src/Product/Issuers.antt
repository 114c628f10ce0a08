-- ===== src/Product/Issuers.antt =====
-- The issuer of a scheme, when the ranges over its methods visit them in another order.
use developer_portal_control.Prelude.{
  ℕ, String, Option, none, some, [], ◌∷◌, ◌≡◌, ◌≢◌, refl, sym, ◌∙◌, ◌⊎◌, inl, inr, ◌==◌, eq_iff,
  arith, In, Bool-cases,
}
use mathlib.Core.Path.{subst}
use developer_portal_control.Prelude.Outcome.{Error}
use developer_portal_control.Api.Object.{ObjectKey}
use developer_portal_control.Api.External.{AuthSchemeSpec, AuthenticationSpec, AuthMethods, Ranges}
use developer_portal_control.Deps.{Texts}
use developer_portal_control.Product.Oidc.{
  issuer_of, first_issuer, extract_issuer_url_from_auth_scheme, oidc_discovered_condition,
}

-- All methods of the scheme that name an issuer name the same one.
abbrev pub HasOneIssuer : Option AuthSchemeSpec → Type 0
HasOneIssuer discovered =
    (scheme : AuthSchemeSpec) (x y : String × AuthenticationSpec)
    → discovered ≡ some scheme
    → In x scheme.authentication
    → In y scheme.authentication
    → issuer_of x.1.jwt ≢ ""
    → issuer_of y.1.jwt ≢ ""
    → issuer_of x.1.jwt ≡ issuer_of y.1.jwt

-- No method of the map names an issuer, or the first one is that of a method.
abbrev IssuerOf : AuthMethods → Type 0
IssuerOf ms =
    ((first_issuer ms ≡ "")
      × ((x : String × AuthenticationSpec) → In x ms → issuer_of x.1.jwt ≡ ""))
    ⊎ ((x : String × AuthenticationSpec) × In x ms
        × (issuer_of x.1.jwt ≢ "")
        × (first_issuer ms ≡ issuer_of x.1.jwt))

issuer_from : (ms : AuthMethods) → IssuerOf ms
unfolding first_issuer
issuer_from [] = inl (refl, λ x i. absurd i)
issuer_from ((name, auth) ∷ ms) = elim (Bool-cases (issuer_of auth.jwt == "")) [
  | inr f ↦ inr (
    (name, auth),
    inl refl,
    λ e. let t = (eq_iff (issuer_of auth.jwt) "").1 e in cc,
    ground arith,
  )
  | inl t ↦ elim (issuer_from ms) [
    | inl (e, unnamed) ↦ inl (
      ground arith,
      λ x i. elim i [
        | inl p ↦
            subst (λ (y : String × AuthenticationSpec). issuer_of y.1.jwt ≡ "") p
              ((eq_iff (issuer_of auth.jwt) "").0 t)
        | inr j ↦ unnamed x j
      ],
    )
    | inr (x, i, n, e) ↦ inr (x, inr i, n, ground arith)
  ]
]

first_issuer-eq :
    (ms ns : AuthMethods)
    → ((x : String × AuthenticationSpec) → In x ms → In x ns)
    → ((x : String × AuthenticationSpec) → In x ns → In x ms)
    → ((x y : String × AuthenticationSpec)
        → In x ms
        → In y ms
        → issuer_of x.1.jwt ≢ ""
        → issuer_of y.1.jwt ≢ ""
        → issuer_of x.1.jwt ≡ issuer_of y.1.jwt)
    → first_issuer ms ≡ first_issuer ns
first_issuer-eq ms ns there back one = elim (issuer_from ms) [
  | inl (e, unnamed) ↦ elim (issuer_from ns) [
    | inl (f, g) ↦ e ∙ sym f
    | inr (y, j, n, f) ↦ absurd (n (unnamed y (back y j)))
  ]
  | inr (x, i, n, e) ↦ elim (issuer_from ns) [
    | inl (f, unnamed) ↦ absurd (n (unnamed x (there x i)))
    | inr (y, j, m, f) ↦ e ∙ (one x y i (back y j) n m ∙ sym f)
  ]
]

module _ (r q : Ranges) (k : ObjectKey) (n m : ℕ) where
  -- Where there is one issuer, every range finds it.
  pub issuer-reordered :
      (discovered : Option AuthSchemeSpec)
      → HasOneIssuer discovered
      → extract_issuer_url_from_auth_scheme (r.visit k n) discovered
        ≡ extract_issuer_url_from_auth_scheme (q.visit k m) discovered
  unfolding extract_issuer_url_from_auth_scheme
  issuer-reordered none one = refl
  issuer-reordered (some scheme) one =
      let methods = scheme.authentication in
      first_issuer-eq (r.visit k n methods) (q.visit k m methods)
        (λ x i. (q.visit-In k m methods x).1 ((r.visit-In k n methods x).0 i))
        (λ x i. (r.visit-In k n methods x).1 ((q.visit-In k m methods x).0 i))
        (λ x y i j.
          one scheme x y refl ((r.visit-In k n methods x).0 i) ((r.visit-In k n methods y).0 j))

  pub condition-reordered :
      (texts : Texts) (discovered : Option AuthSchemeSpec) (e : Option Error)
      → HasOneIssuer discovered
      → oidc_discovered_condition texts (r.visit k n) discovered e
        ≡ oidc_discovered_condition texts (q.visit k m) discovered e
  unfolding oidc_discovered_condition
  condition-reordered texts discovered e one = rw (issuer-reordered discovered one) refl
