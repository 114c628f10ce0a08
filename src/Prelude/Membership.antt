-- ===== src/Prelude/Membership.antt =====
-- Membership under the searches of `Lists`.
use mathlib.Core.Path.{◌≡◌, refl, sym, subst}
use mathlib.Core.Logic.{◌⊎◌, inl, inr}
use mathlib.Core.Bool.{Bool, true, false}
use mathlib.Core.List.{List, [], ◌∷◌}
use native.Mathlib.Omega.{arith}
use Prim.Native.String.{String}
use mathlib.Core.Logic.{◌≢◌}
use text.Mathlib.Text.{◌==◌}
use text.Mathlib.TextEquality.{eq_iff}
use developer_portal_control.Prelude.Tests.{if◌then◌else◌, Bool-cases}
use developer_portal_control.Prelude.Lists.{keep, any, In}

module _ {A : Type 0} (p : A → Bool) where
  keep-cons :
      (x y : A) (xs : List A) (b : Bool)
      → p y ≡ b
      → In x (if b then y ∷ keep p xs else keep p xs)
      → ((y ≡ x) × (p y ≡ true)) ⊎ In x (keep p xs)
  keep-cons x y xs true e (inl q) = inl (q, e)
  keep-cons x y xs true e (inr i) = inr i
  keep-cons x y xs false e i = inr i

  -- An element that was kept was there, and passes the test.
  pub mem-keep : (x : A) (xs : List A) → In x (keep p xs) → In x xs × (p x ≡ true)
  mem-keep x [] i = absurd i
  mem-keep x (y ∷ xs) i = elim (keep-cons x y xs (p y) refl i) [
    | inl (q, e) ↦ (inl q, subst (λ z. p z ≡ true) q e)
    | inr j ↦ let (k, e) = mem-keep x xs j in (inr k, e)
  ]

  pub keep-mem : (x : A) (xs : List A) → In x xs → p x ≡ true → In x (keep p xs)
  keep-mem x [] i h = absurd i
  keep-mem x (y ∷ xs) (inl q) h = rw (subst (λ z. p z ≡ true) (sym q) h) (inl q)
  keep-mem x (y ∷ xs) (inr i) h = elim (Bool-cases (p y)) [
    | inl e ↦ rw e (inr (keep-mem x xs i h))
    | inr e ↦ rw e (keep-mem x xs i h)
  ]

  -- Where no element passes the test, this one does not.
  pub any-false : (x : A) (xs : List A) → any p xs ≡ false → In x xs → p x ≡ false
  any-false x [] h i = absurd i
  any-false x (y ∷ xs) h (inl q) = ground arith
  any-false x (y ∷ xs) h (inr i) = any-false x xs (ground arith) i

  pub any-true : (x : A) (xs : List A) → In x xs → p x ≡ true → any p xs ≡ true
  any-true x [] i h = absurd i
  any-true x (y ∷ xs) (inl q) h = ground arith
  any-true x (y ∷ xs) (inr i) h = ground (arith, any-true x xs i h)

  pub any-some : (xs : List A) → any p xs ≡ true → (x : A) × In x xs × (p x ≡ true)
  any-some [] h = cc
  any-some (y ∷ xs) h = elim (Bool-cases (p y)) [
    | inl e ↦ (y, inl refl, e)
    | inr e ↦ let (x, i, t) = any-some xs (ground arith) in (x, inr i, t)
  ]

  pub any-false_of_all : (xs : List A) → ((x : A) → In x xs → p x ≡ false) → any p xs ≡ false
  any-false_of_all [] h = refl
  any-false_of_all (y ∷ xs) h =
      ground (arith, h y (inl refl), any-false_of_all xs (λ x i. h x (inr i)))

-- The test of two texts that differ.
pub eq-false : (s t : String) → s ≢ t → (s == t) ≡ false
eq-false s t h = ground (arith, eq_iff s t)
