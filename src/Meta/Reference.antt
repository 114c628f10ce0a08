-- ===== src/Meta/Reference.antt =====
-- Functions that meet the laws of `Meta`: the instance on which the examples run.
use developer_portal_control.Prelude.{
  ℕ, String, Option, none, some, List, [], ◌∷◌, ◌≡◌, refl, ◌==◌, eq_iff, if◌then◌else◌, arith,
  first, keep, not,
}
use developer_portal_control.Meta.{Condition, Meta, merged}

abbrev pub find_in : List Condition → String → Option Condition
find_in cs t = first (λ c. c.type == t) cs

abbrev pub set_in : ℕ → List Condition → Condition → List Condition
set_in now [] c = merged now none c ∷ []
set_in now (d ∷ ds) c = if d.type == c.type then merged now (some d) c ∷ ds else d ∷ set_in now ds c

abbrev pub remove_in : List Condition → String → List Condition
remove_in cs u = keep (λ c. not (c.type == u)) cs

pub find_in-set_in :
    (now : ℕ) (cs : List Condition) (c : Condition) (t : String)
    → find_in (set_in now cs c) t
      ≡ (if c.type == t then some (merged now (find_in cs c.type) c) else find_in cs t)
find_in-set_in now [] c t = refl
find_in-set_in now (d ∷ ds) c t =
    ground
      (arith, eq_iff d.type c.type, eq_iff c.type t, eq_iff d.type t, find_in-set_in now ds c t)

pub find_in-remove_in :
    (cs : List Condition) (u t : String)
    → find_in (remove_in cs u) t ≡ (if u == t then none else find_in cs t)
find_in-remove_in [] u t = ground arith
find_in-remove_in (d ∷ ds) u t =
    ground (arith, eq_iff d.type u, eq_iff u t, eq_iff d.type t, find_in-remove_in ds u t)

pub set_in_stable :
    (now : ℕ) (cs : List Condition) (c : Condition)
    → find_in cs c.type ≡ some (merged now (find_in cs c.type) c)
    → set_in now cs c ≡ cs
set_in_stable now [] c h = ground arith
set_in_stable now (d ∷ ds) c h = ground (arith, set_in_stable now ds c)

pub remove_in_stable :
    (cs : List Condition) (u : String) → find_in cs u ≡ none → remove_in cs u ≡ cs
remove_in_stable [] u h = refl
remove_in_stable (d ∷ ds) u h = ground (arith, remove_in_stable ds u)

abbrev pub reference_meta : Meta
reference_meta = record {
  find = find_in;
  set = set_in;
  remove = remove_in;
  find-nil = λ t. refl;
  find-set = find_in-set_in;
  find-remove = find_in-remove_in;
  set_stable = set_in_stable;
  remove_stable = remove_in_stable;
}
