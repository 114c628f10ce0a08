-- ===== src/KeyStatus/Methods.antt =====
-- The methods of a scheme that take an API key, whatever the order in which a range visits them.
use mathlib.Core.Path.{subst}
use developer_portal_control.Prelude.{
  ℕ, String, Bool, true, List, [], ◌∷◌, map, ◌≡◌, refl, ap, ◌↔◌, inl, inr, In, keep, mem-keep,
  keep-mem,
}
use developer_portal_control.Api.Object.{key_of}
use developer_portal_control.Api.External.{AuthenticationSpec, AuthSchemeSpec}
use developer_portal_control.Api.Key.{ApiKey}
use developer_portal_control.Deps.{Deps}
use developer_portal_control.Client.{Snapshot}
use developer_portal_control.KeyStatus.Failures.{api_key_auth_methods, check_auth_methods}
use developer_portal_control.KeyStatus.Status.{first_method}

In-map :
    {A B : Type 0} (f : A → B) (b : B) (xs : List A)
    → In b (map f xs)
    → (a : A) × In a xs × (f a ≡ b)
In-map f b [] i = absurd i
In-map f b (x ∷ xs) (inl e) = (x, inl refl, e)
In-map f b (x ∷ xs) (inr i) = let (a, j, e) = In-map f b xs i in (a, inr j, e)

map-In : {A B : Type 0} (f : A → B) (a : A) (xs : List A) → In a xs → In (f a) (map f xs)
map-In f a [] i = absurd i
map-In f a (x ∷ xs) (inl e) = inl (ap f e)
map-In f a (x ∷ xs) (inr i) = inr (map-In f a xs i)

-- The method stands in the scheme under some name, and takes an API key.
abbrev pub TakesKey : Deps → AuthSchemeSpec → AuthenticationSpec → Type 0
TakesKey d scheme v =
    (e : String × AuthenticationSpec) × In e scheme.authentication
    × (d.kube.uses_api_key e.1 ≡ true)
    × (e.1 ≡ v)

module _ (d : Deps) (s : Snapshot) (key : ApiKey) (n : ℕ) (scheme : AuthSchemeSpec)
    (v : AuthenticationSpec) where
  abbrev uses : String × AuthenticationSpec → Bool
  uses e = d.kube.uses_api_key e.1

  pub methods-TakesKey : In v (api_key_auth_methods d s key n scheme) ↔ TakesKey d scheme v
  unfolding api_key_auth_methods
  methods-TakesKey =
      let m = s.ranges.visit (key_of key.metadata) n scheme.authentication in
      let l = d.lo.filter_values_lem (λ k w. d.kube.uses_api_key w) m in
      (
        λ i.
            let (e, j, p) =
              In-map (λ (e : String × AuthenticationSpec). e.1) v (keep uses m) (rw l at i) in
            let (k, t) = mem-keep uses e m j in
            (e, (s.ranges.visit-In (key_of key.metadata) n scheme.authentication e).0 k, t, p),
        λ (e, i, t, p). rw l (
            subst (λ w. In w (map (λ (e : String × AuthenticationSpec). e.1) (keep uses m))) p
              (map-In (λ (e : String × AuthenticationSpec). e.1) e (keep uses m)
                (keep-mem uses e m
                  ((s.ranges.visit-In (key_of key.metadata) n scheme.authentication e).1 i) t))),
      )

-- Two lists of the same methods.
module _ (ms ns : List AuthenticationSpec) (there : (v : AuthenticationSpec) → In v ms → In v ns)
    (back : (v : AuthenticationSpec) → In v ns → In v ms) where
  pub check_auth_methods-eq :
      (d : Deps) (key : ApiKey) → check_auth_methods d key ms ≡ check_auth_methods d key ns
  check_auth_methods-eq d key = found ms ns there back
    where
      found :
          (ms ns : List AuthenticationSpec)
          → ((v : AuthenticationSpec) → In v ms → In v ns)
          → ((v : AuthenticationSpec) → In v ns → In v ms)
          → check_auth_methods d key ms ≡ check_auth_methods d key ns
      found [] [] f g = refl
      found [] (n ∷ ns) f g = absurd (g n (inl refl))
      found (m ∷ ms) [] f g = absurd (f m (inl refl))
      found (m ∷ ms) (n ∷ ns) f g = unfold check_auth_methods in refl

  -- Where they have one specification and one place for the credentials, either first method will do.
  pub first_method-eq :
      ((v w : AuthenticationSpec)
        → In v ms
        → In w ms
        → (v.api_key ≡ w.api_key) × (v.credentials ≡ w.credentials))
      → first_method ms ≡ first_method ns
  first_method-eq one = found ms ns there back one
    where
      found :
          (ms ns : List AuthenticationSpec)
          → ((v : AuthenticationSpec) → In v ms → In v ns)
          → ((v : AuthenticationSpec) → In v ns → In v ms)
          → ((v w : AuthenticationSpec)
              → In v ms
              → In w ms
              → (v.api_key ≡ w.api_key) × (v.credentials ≡ w.credentials))
          → first_method ms ≡ first_method ns
      found [] [] f g one = refl
      found [] (n ∷ ns) f g one = absurd (g n (inl refl))
      found (m ∷ ms) [] f g one = absurd (f m (inl refl))
      found (m ∷ ms) (n ∷ ns) f g one =
          let (a, b) = one m n (inl refl) (g n (inl refl)) in rw (a, b) refl
