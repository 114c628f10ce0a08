-- ===== src/Lo/Reference.antt =====
-- Functions that meet the laws of `Lo`: the instance on which the examples run.
use developer_portal_control.Prelude.{
  String, List, [], ◌∷◌, ◌++◌, map, ◌≡◌, refl, keep, first, any, arith,
}
use mathlib.Core.List.{flat_map}
use developer_portal_control.Lo.{Lo, lookup, override}

pub lookup-append :
    {V : Type 0} (k : String) (n m : List (String × V))
    → lookup k (n ++ m) ≡ override (lookup k n) (lookup k m)
lookup-append k [] m = refl
lookup-append k ((j, v) ∷ n) m = ground (arith, lookup-append k n m)

abbrev pub reference_lo : Lo
reference_lo = record {
  filter = keep;
  find = first;
  contains_by = any;
  map_by = map;
  flat_map_by = flat_map;
  filter_values = λ p m. map (λ e. e.1) (keep (λ e. p e.0 e.1) m);
  assign = λ m n. n ++ m;
  filter_lem = λ p xs. refl;
  find_lem = λ p xs. refl;
  contains_by_lem = λ p xs. refl;
  map_by_lem = λ f xs. refl;
  flat_map_by_lem = λ f xs. refl;
  filter_values_lem = λ p m. refl;
  lookup-assign = λ k m n. lookup-append k n m;
}
