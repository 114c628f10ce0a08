-- ===== src/Client/Run.antt =====
-- A reconcile as a function of the writes made so far, which returns them with its own added. A
-- write that is refused has been sent too.
use developer_portal_control.Prelude.{◌≡◌, refl, ℕ, Bool, true, false, List, [], ◌∷◌, if◌then◌else◌}
use developer_portal_control.Prelude.Outcome.{Error, Result, ok, err, is_conflict}
use developer_portal_control.Client.{Client, Call, Snapshot}

abbrev pub Run : Type 0 → Type 0
Run A = List Call → Result A × List Call

abbrev pub done : {A : Type 0} → A → Run A
done a h = (ok a, h)

abbrev pub fail : {A : Type 0} → Error → Run A
fail e h = (err e, h)

abbrev pub resume : {A B : Type 0} → Result A → List Call → (A → Run B) → Result B × List Call
resume (ok a) h f = f a h
resume (err e) h f = (err e, h)

infixl 5 ◌>>=◌ ◌>>◌
abbrev pub ◌>>=◌ : {A B : Type 0} → Run A → (A → Run B) → Run B
◌>>=◌ m f h = resume (m h).0 (m h).1 f

abbrev pub ◌>>◌ : {B : Type 0} → Run (Unit {0}) → Run B → Run B
m >> k = m >>= λ _. k

-- Go on with the answer of a call, whichever it is.
abbrev pub catch : {A B : Type 0} → Run A → (Error → Run B) → (A → Run B) → Run B
catch m g f h = elim (m h).0 [ ok a ↦ f a (m h).1 | err e ↦ g e (m h).1 ]

-- Read the state that the writes so far have led to.
abbrev pub query : {A : Type 0} → Client → (Snapshot → Result A) → Run A
query c f h = (f (c.snapshot h), h)

abbrev pub perform : Client → Call → Run (Unit {0})
perform c w h = (c.answer h w, w ∷ h)

-- `for i := range items`, left by the first error.
unfoldable pub for_each : {A : Type 0} → (A → Run (Unit {0})) → List A → Run (Unit {0})
for_each f [] h = (ok tt, h)
for_each f (x ∷ xs) h = elim (f x h).0 [
  | ok u ↦ for_each f xs (f x h).1
  | err e ↦ (err e, (f x h).1)
]

-- ctrl.Result: at once again, or after a number of nanoseconds, where 0 stands for neither.
pub record Requeue : Type 0 where
  pub again : Bool
  pub after : ℕ

abbrev pub no_requeue : Requeue
no_requeue = record { again = false; after = 0 }

-- A conflict is not an error: the resource might just be outdated.
abbrev pub requeue_on_conflict : Error → Result Requeue
requeue_on_conflict e = if is_conflict e then ok (record { again = true; after = 0 }) else err e

-- The loop of the controllers that requeue on a conflict.
abbrev pub finish : Result (Unit {0}) → Result Requeue
finish (ok u) = ok no_requeue
finish (err e) = requeue_on_conflict e

-- Inversion of a bind that has returned a result.
resume-eq-ok :
    {A B : Type 0} (r : Result A) (h : List Call) (f : A → Run B) {b : B}
    → (resume r h f).0 ≡ ok b
    → (a : A) × (r ≡ ok a) × ((f a h).0 ≡ ok b) × (resume r h f ≡ f a h)
resume-eq-ok (ok a) h f e = (a, refl, e, refl)
resume-eq-ok (err x) h f e = cc

pub bind-eq-ok :
    {A B : Type 0} (m : Run A) (f : A → Run B) (h : List Call) {b : B}
    → ((m >>= f) h).0 ≡ ok b
    → (a : A) × ((m h).0 ≡ ok a) × ((f a (m h).1).0 ≡ ok b) × ((m >>= f) h ≡ f a (m h).1)
bind-eq-ok m f h e = resume-eq-ok (m h).0 (m h).1 f e
