-- ===== src/Prelude/Decide.antt =====
-- Decisions as tests into Bool, as `reflect.DeepEqual` gives them.
use native.Mathlib.Omega.{arith}
use mathlib.Core.Path.{◌≡◌, refl}
use mathlib.Core.Logic.{◌≢◌, ◌↔◌, inl, inr}
use mathlib.Core.Bool.{Bool, true, false}
use Prim.Native.String.{String}
use text.Mathlib.Text.{◌==◌}
use text.Mathlib.TextEquality.{eq_iff}
use developer_portal_control.Prelude.Tests.{Bool-cases}

pub differ : (s t : String) → (s == t) ≡ false → s ≢ t
differ s t e p = ground (arith, eq_iff s t)

unfoldable pub string_discrete : Discrete String
unfolding Bool-cases
string_discrete s t = elim (Bool-cases (s == t)) [
  | inl e ↦ yes ((eq_iff s t).0 e)
  | inr e ↦ no (differ s t e)
]

abbrev pub to_bool : {P : Type 0} → Dec P → Bool
to_bool (yes h) = true
to_bool (no h) = false

pub to_bool_iff : {P : Type 0} (t : Dec P) → (to_bool t ≡ true) ↔ P
to_bool_iff (yes h) = (λ e. h, λ p. refl)
to_bool_iff (no h) = (λ e. cc, λ p. absurd (h p))
