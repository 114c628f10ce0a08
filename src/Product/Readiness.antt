-- ===== src/Product/Readiness.antt =====
-- When a product is ready.
use mathlib.Core.Path.{subst}
use mathlib.Core.List.{flat_map}
use developer_portal_control.Prelude.{
  true, List, [], ◌∷◌, ◌++◌, ◌≡◌, refl, sym, ap, ◌∙◌, ◌↔◌, inl, inr, eq_iff, arith, In, any,
  any-true,
}
use developer_portal_control.Prelude.Outcome.{Result, ok, err, ok-injective}
use developer_portal_control.Meta.{Condition, Status, yes_true, is_status_true}
use developer_portal_control.Api.External.{HttpRoute}
use developer_portal_control.Api.Product.{ApiProduct}
use developer_portal_control.Deps.{Deps}
use developer_portal_control.Client.{Snapshot}
use developer_portal_control.Product.Policies.{route_key}
use developer_portal_control.Product.Effective.{any_some}
use developer_portal_control.Product.Status.{
  is_accepted, route_accepted, ready_of_route, ready_condition,
}

-- One of the route's parents has accepted it.
abbrev pub IsAccepted : HttpRoute → Type 0
IsAccepted route =
    (cs : List Condition) × (a : Condition) × In cs route.parents
    × In a cs
    × (a.type ≡ "Accepted")
    × (a.status ≡ yes_true)

accepted_condition :
    (a : Condition) → (is_accepted a ≡ true) ↔ ((a.type ≡ "Accepted") × (a.status ≡ yes_true))
accepted_condition a = (
  λ h. (ground (arith, eq_iff a.type "Accepted"), holds a.status (ground arith)),
  λ (t, s). ground (arith, eq_iff a.type "Accepted"),
)
  where
    holds : (s : Status) → is_status_true s ≡ true → s ≡ yes_true
    holds Status.yes_true h = refl
    holds Status.no_false h = cc
    holds Status.unknown h = cc

In-left : (a : Condition) (xs ys : List Condition) → In a xs → In a (xs ++ ys)
In-left a [] ys i = absurd i
In-left a (x ∷ xs) ys (inl e) = inl e
In-left a (x ∷ xs) ys (inr i) = inr (In-left a xs ys i)

In-right : (a : Condition) (xs ys : List Condition) → In a ys → In a (xs ++ ys)
In-right a [] ys i = i
In-right a (x ∷ xs) ys i = inr (In-right a xs ys i)

In-append :
    (P : Type 0) (a : Condition) (xs ys : List Condition)
    → (In a xs → P)
    → (In a ys → P)
    → In a (xs ++ ys)
    → P
In-append P a [] ys f g i = g i
In-append P a (x ∷ xs) ys f g (inl e) = f (inl e)
In-append P a (x ∷ xs) ys f g (inr i) = In-append P a xs ys (λ j. f (inr j)) g i

In-joined :
    (a : Condition) (xss : List (List Condition)) (cs : List Condition)
    → In cs xss
    → In a cs
    → In a (flat_map (λ x. x) xss)
unfolding flat_map
In-joined a [] cs i j = absurd i
In-joined a (xs ∷ xss) cs (inl e) j = In-left a xs _ (subst (In a) (sym e) j)
In-joined a (xs ∷ xss) cs (inr i) j = In-right a xs _ (In-joined a xss cs i j)

joined-In :
    (a : Condition) (xss : List (List Condition))
    → In a (flat_map (λ x. x) xss)
    → (cs : List Condition) × In cs xss × In a cs
unfolding flat_map
joined-In a [] i = absurd i
joined-In a (xs ∷ xss) i =
    In-append _ a xs (flat_map (λ x. x) xss) (λ j. (xs, inl refl, j))
      (λ j. let (cs, l, m) = joined-In a xss j in (cs, inr l, m)) i

module _ (d : Deps) where
  route_accepts_iff : (route : HttpRoute) → (route_accepted d route ≡ true) ↔ IsAccepted route
  unfolding route_accepted
  route_accepts_iff route =
      let joined = d.lo.flat_map_by_lem (λ (cs : List Condition). cs) route.parents in
      let e =
        d.lo.contains_by_lem is_accepted
          (d.lo.flat_map_by (λ (cs : List Condition). cs) route.parents)
        ∙ ap (any is_accepted) joined in
      (
        λ h.
            let (a, i, t) = any_some is_accepted (flat_map (λ cs. cs) route.parents) (sym e ∙ h) in
            let (cs, j, l) = joined-In a route.parents i in
            let (p, s) = (accepted_condition a).0 t in (cs, a, j, l, p, s),
        λ (cs, a, j, l, p, s).
            e
            ∙ any-true is_accepted a _ (In-joined a route.parents cs j l)
                ((accepted_condition a).1 (p, s)),
      )

  ready_of_route_iff :
      (product : ApiProduct) (r : Result HttpRoute) (c : Condition)
      → ready_of_route d product r ≡ ok c
      → (is_status_true c.status ≡ true) ↔ ((route : HttpRoute) × (r ≡ ok route) × IsAccepted route)
  unfolding ready_of_route
  ready_of_route_iff product (err e) c h = (λ t. absurd (ground arith), λ (route, p, a). cc)
  ready_of_route_iff product (ok route) c h = (
    λ t. (route, refl, (route_accepts_iff route).0 (ground arith)),
    λ (other, p, a).
        let b = (route_accepts_iff route).1 (subst IsAccepted (sym (ok-injective p)) a) in
        ground arith,
  )

  -- When the condition Ready of a product is calculated, it has status True exactly if the route that
  -- the product targets is there and one of its parents reports the condition Accepted with status
  -- True.
  pub ready_iff :
      (s : Snapshot) (product : ApiProduct) (c : Condition)
      → ready_condition d s product ≡ ok c
      → (is_status_true c.status ≡ true)
        ↔ ((route : HttpRoute) × (s.get_route (route_key product) ≡ ok route) × IsAccepted route)
  unfolding ready_condition
  ready_iff s product c h = ready_of_route_iff product (s.get_route (route_key product)) c h
