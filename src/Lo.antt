-- ===== src/Lo.antt =====
-- The functions of github.com/samber/lo that the controllers call, with the laws that its
-- documentation gives. That package is not part of the repository, so they are a parameter.
pub mod Reference
use developer_portal_control.Prelude.{
  String, Bool, Option, none, some, List, [], ◌++◌, map, ◌≡◌, ◌==◌, if◌then◌else◌, keep, first, any,
  is_some,
}
use mathlib.Core.List.{flat_map}
use mathlib.Core.List.{◌∷◌}

-- `m[k]`, and whether it is there.
abbrev pub lookup : {V : Type 0} → String → List (String × V) → Option V
lookup k [] = none
lookup k ((j, v) ∷ m) = if j == k then some v else lookup k m

-- The value of the second map, else that of the first.
abbrev pub override : {V : Type 0} → Option V → Option V → Option V
override (some v) o = some v
override none o = o

pub record Lo : Type 1 where
  pub filter : {A : Type 0} → (A → Bool) → List A → List A
  pub find : {A : Type 0} → (A → Bool) → List A → Option A
  pub contains_by : {A : Type 0} → (A → Bool) → List A → Bool
  pub map_by : {A B : Type 0} → (A → B) → List A → List B
  pub flat_map_by : {A B : Type 0} → (A → List B) → List A → List B
  pub filter_values : {V : Type 0} → (String → V → Bool) → List (String × V) → List V
  pub assign : {V : Type 0} → List (String × V) → List (String × V) → List (String × V)
  pub filter_lem : {A : Type 0} (p : A → Bool) (xs : List A) → filter p xs ≡ keep p xs
  pub find_lem : {A : Type 0} (p : A → Bool) (xs : List A) → find p xs ≡ first p xs
  pub contains_by_lem : {A : Type 0} (p : A → Bool) (xs : List A) → contains_by p xs ≡ any p xs
  pub map_by_lem : {A B : Type 0} (f : A → B) (xs : List A) → map_by f xs ≡ map f xs
  pub flat_map_by_lem :
      {A B : Type 0} (f : A → List B) (xs : List A) → flat_map_by f xs ≡ flat_map f xs
  -- The map is given as its entries in the order in which this call visits them.
  pub filter_values_lem :
      {V : Type 0} (p : String → V → Bool) (m : List (String × V))
      → filter_values p m ≡ map (λ (e : String × V). e.1) (keep (λ (e : String × V). p e.0 e.1) m)
  -- Of two values for one key the later map's is taken.
  pub lookup-assign :
      {V : Type 0} (k : String) (m n : List (String × V))
      → lookup k (assign m n) ≡ override (lookup k n) (lookup k m)
