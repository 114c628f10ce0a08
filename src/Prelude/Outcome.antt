-- ===== src/Prelude/Outcome.antt =====
-- The errors that a call can return, and the result of a fallible function.
use Prim.Native.String.{String}
use mathlib.Core.Path.{◌≡◌, refl}
use mathlib.Core.Bool.{Bool, true, false}
use mathlib.Core.Logic.{◌⊎◌, inl, inr}

-- A non-nil `error`: the API server's errors by their reason, any other by its text, and
-- `fmt.Errorf("...: %w", err)`.
pub data Error : Type 0 where
  not_found conflict already_exists : Error
  other : String → Error
  wrapped : String → Error → Error

-- `apierrors.IsNotFound`, `IsConflict` and `IsAlreadyExists` see through `%w`.
abbrev pub is_not_found : Error → Bool
is_not_found not_found = true
is_not_found (wrapped s e) = is_not_found e
is_not_found _ = false

abbrev pub is_conflict : Error → Bool
is_conflict conflict = true
is_conflict (wrapped s e) = is_conflict e
is_conflict _ = false

abbrev pub is_already_exists : Error → Bool
is_already_exists already_exists = true
is_already_exists (wrapped s e) = is_already_exists e
is_already_exists _ = false

-- What a function that returns a value and an `error` returns.
pub data Result {ℓ} (A : Type ℓ) : Type ℓ where
  err : Error → Result A
  ok : A → Result A

pub Result-cases {ℓ} :
    {A : Type ℓ} (r : Result A) → ((a : A) × (r ≡ ok a)) ⊎ ((e : Error) × (r ≡ err e))
Result-cases (err e) = inr (e, refl)
Result-cases (ok a) = inl (a, refl)

pub ok-injective {ℓ} : {A : Type ℓ} {a b : A} → ok a ≡ ok b → a ≡ b
ok-injective h = cc

-- `if err != nil { return err }`, and on with the value.
infixl 5 ◌>>=◌
abbrev pub ◌>>=◌ {ℓ κ} : {A : Type ℓ} {B : Type κ} → Result A → (A → Result B) → Result B
◌>>=◌ (err e) next = err e
◌>>=◌ (ok a) next = next a

-- Where the whole has returned a value, so has its first part.
pub >>=-eq-ok {ℓ κ} :
    {A : Type ℓ} {B : Type κ} {b : B} (r : Result A) (next : A → Result B)
    → (r >>= next) ≡ ok b
    → (a : A) × (r ≡ ok a) × (next a ≡ ok b)
>>=-eq-ok (err e) next p = cc
>>=-eq-ok (ok a) next p = (a, refl, p)

-- Of four fallible steps whose results are put together.
module _ {A B C D : Type 0} (a : Result A) (b : Result B) (c : Result C) (e : Result D) where
  abbrev pub AreFour : A → B → C → D → Type 0
  AreFour x y z w = (a ≡ ok x) × (b ≡ ok y) × (c ≡ ok z) × (e ≡ ok w)

  abbrev pub all_four : {E : Type 0} → (A → B → C → D → E) → Result E
  all_four f = do x ← a; y ← b; z ← c; w ← e; ok (f x y z w)

  pub four-ok :
      {E : Type 0} (f : A → B → C → D → E) (r : E)
      → all_four f ≡ ok r
      → (x : A) × (y : B) × (z : C) × (w : D) × AreFour x y z w × (f x y z w ≡ r)
  four-ok f r p =
      let (x, ex, p) = >>=-eq-ok a _ p in
      let (y, ey, p) = >>=-eq-ok b _ p in
      let (z, ez, p) = >>=-eq-ok c _ p in
      let (w, ew, p) = >>=-eq-ok e _ p in (x, y, z, w, (ex, ey, ez, ew), ok-injective p)

  pub from-four :
      {E : Type 0} (f : A → B → C → D → E) (x : A) (y : B) (z : C) (w : D)
      → AreFour x y z w
      → all_four f ≡ ok (f x y z w)
  from-four f x y z w h = rw (h.0, h.1, h.2, h.3) refl
