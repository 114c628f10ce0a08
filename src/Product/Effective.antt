-- ===== src/Product/Effective.antt =====
-- Which policy applies to a route.
use mathlib.Core.Path.{subst}
use developer_portal_control.Prelude.{
  Bool, true, false, Option, none, some, List, [], ◌∷◌, ◌≡◌, refl, sym, ◌∙◌, ◌⊎◌, inl, inr, eq_iff,
  arith, In, first, any, Bool-cases, mem-keep, keep-mem, any-false,
}
use developer_portal_control.Api.External.{HttpRoute, ParentReference}
use developer_portal_control.Deps.{Deps}
use developer_portal_control.Product.Policies.{
  Policy, targets_route, targets_parent, is_for_gateway, is_parent, parent_namespace,
  policy_of_route,
}

module _ {A : Type 0} (p : A → Bool) where
  first_cases :
      (xs : List A)
      → ((first p xs ≡ none) × ((x : A) → In x xs → p x ≡ false))
        ⊎ ((x : A) × (first p xs ≡ some x) × In x xs × (p x ≡ true))
  first_cases [] = inl (refl, λ x i. absurd i)
  first_cases (x ∷ xs) = elim (Bool-cases (p x)) [
    | inl e ↦ inr (x, rw e refl, inl refl, e)
    | inr e ↦ rest e (first_cases xs)
  ]
    where
      rest :
          p x ≡ false
          → ((first p xs ≡ none) × ((y : A) → In y xs → p y ≡ false))
            ⊎ ((y : A) × (first p xs ≡ some y) × In y xs × (p y ≡ true))
          → ((first p (x ∷ xs) ≡ none) × ((y : A) → In y (x ∷ xs) → p y ≡ false))
            ⊎ ((y : A) × (first p (x ∷ xs) ≡ some y) × In y (x ∷ xs) × (p y ≡ true))
      rest e (inl (n, all)) =
          inl (rw e n, λ y i. elim i [ inl q ↦ subst (λ z. p z ≡ false) q e | inr j ↦ all y j ])
      rest e (inr (y, f, i, t)) = inr (y, rw e f, inr i, t)

  pub any_some : (xs : List A) → any p xs ≡ true → (x : A) × In x xs × (p x ≡ true)
  any_some [] h = cc
  any_some (x ∷ xs) h = elim (Bool-cases (p x)) [
    | inl e ↦ (x, inl refl, e)
    | inr e ↦ let (y, i, t) = any_some xs (ground arith) in (y, inr i, t)
  ]

module _ {P : Type 0} (k : Policy P) (route : HttpRoute) where
  abbrev pub TargetsRoute : P → Type 0
  TargetsRoute p =
      ((k.target p).kind ≡ "HTTPRoute")
      × ((k.metadata p).namespace ≡ route.namespace)
      × ((k.target p).name ≡ route.name)

  -- A gateway that the route names as a parent, in the route's namespace if the name has none.
  abbrev pub TargetsGateway : P → Type 0
  TargetsGateway p =
      ((k.target p).kind ≡ "Gateway")
      × (ref : ParentReference) × In ref route.parent_refs
      × ((k.target p).name ≡ ref.name)
      × ((k.metadata p).namespace ≡ parent_namespace route ref)

  -- What is found: a policy of the route itself, or one of a gateway of the route if there is none of
  -- the route, or nothing if there is neither.
  abbrev pub IsEffective : List P → Option P → Type 0
  IsEffective ps none = (p : P) → In p ps → (¬ TargetsRoute p) × (¬ TargetsGateway p)
  IsEffective ps (some p) =
      In p ps × (TargetsRoute p ⊎ (TargetsGateway p × ((q : P) → In q ps → ¬ TargetsRoute q)))

  route-true : (p : P) → targets_route k route p ≡ true → TargetsRoute p
  unfolding targets_route
  route-true p h = ground (
    arith,
    eq_iff (k.target p).kind "HTTPRoute",
    eq_iff (k.metadata p).namespace route.namespace,
    eq_iff (k.target p).name route.name,
  )

  route-false : (p : P) → targets_route k route p ≡ false → ¬ TargetsRoute p
  unfolding targets_route
  route-false p h (a, b, c) = ground (
    arith,
    eq_iff (k.target p).kind "HTTPRoute",
    eq_iff (k.metadata p).namespace route.namespace,
    eq_iff (k.target p).name route.name,
  )

  module _ (d : Deps) where
    parent-true :
        (p : P) → is_for_gateway k p ≡ true → targets_parent k d route p ≡ true → TargetsGateway p
    unfolding targets_parent is_parent
    parent-true p g h =
        let (ref, i, t) =
          any_some (is_parent k route p) route.parent_refs
            (sym (d.lo.contains_by_lem (is_parent k route p) route.parent_refs) ∙ h) in
        (
          (eq_iff (k.target p).kind "Gateway").0 g,
          ref,
          i,
          ground (arith, eq_iff (k.target p).name ref.name),
          ground (arith, eq_iff (k.metadata p).namespace (parent_namespace route ref)),
        )

    parent-none :
        (ps : List P)
        → ((q : P) → In q (d.lo.filter (is_for_gateway k) ps) → targets_parent k d route q ≡ false)
        → (p : P) → In p ps
        → ¬ TargetsGateway p
    unfolding targets_parent is_parent
    parent-none ps all p i (g, ref, j, n, s) =
        let e = all p (
          rw (d.lo.filter_lem (is_for_gateway k) ps)
            (keep-mem (is_for_gateway k) p ps i ((eq_iff (k.target p).kind "Gateway").1 g))) in
        let f =
          any-false (is_parent k route p) ref route.parent_refs
            (sym (d.lo.contains_by_lem (is_parent k route p) route.parent_refs) ∙ e) j in
        ground (
          arith,
          eq_iff (k.target p).name ref.name,
          eq_iff (k.metadata p).namespace (parent_namespace route ref),
        )

    found_on_route :
        (ps : List P) (p : P)
        → first (targets_route k route) ps ≡ some p
        → policy_of_route k d route ps ≡ some p
    unfolding policy_of_route
    found_on_route ps p e = rw (policy_of_route, d.lo.find_lem (targets_route k route) ps, e) refl

    found_on_gateway :
        (ps : List P)
        → first (targets_route k route) ps ≡ none
        → policy_of_route k d route ps
          ≡ first (targets_parent k d route) (d.lo.filter (is_for_gateway k) ps)
    unfolding policy_of_route
    found_on_gateway ps e =
        rw (policy_of_route, d.lo.find_lem (targets_route k route) ps, e)
          (d.lo.find_lem (targets_parent k d route) (d.lo.filter (is_for_gateway k) ps))

    -- The policy that is found for a route is one that targets the route, or, only if none does, one
    -- that targets a gateway which the route names as a parent; if none is found, no listed policy
    -- targets the route or such a gateway.
    pub policy-IsEffective : (ps : List P) → IsEffective ps (policy_of_route k d route ps)
    policy-IsEffective ps = elim (first_cases (targets_route k route) ps) [
      | inr (p, e, i, t) ↦
          subst (IsEffective ps) (sym (found_on_route ps p e)) (i, inl (route-true p t))
      | inl (e, all) ↦ gateway e (λ q j. route-false q (all q j))
    ]
      where
        gateway :
            first (targets_route k route) ps ≡ none
            → ((q : P) → In q ps → ¬ TargetsRoute q)
            → IsEffective ps (policy_of_route k d route ps)
        gateway e all =
            elim (first_cases (targets_parent k d route) (d.lo.filter (is_for_gateway k) ps)) [
              | inl (f, others) ↦
                  subst (IsEffective ps) (sym (found_on_gateway ps e ∙ f))
                    (λ p i. (all p i, parent-none ps others p i))
              | inr (p, f, i, t) ↦
                  let (j, g) =
                    mem-keep (is_for_gateway k) p ps
                      (rw (d.lo.filter_lem (is_for_gateway k) ps) at i) in
                  subst (IsEffective ps) (sym (found_on_gateway ps e ∙ f))
                    (j, inr (parent-true p g t, all))
            ]
