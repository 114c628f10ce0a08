-- ===== src/Cluster/Still.antt =====
-- Runs that succeed, ask for no retry and write nothing.
use developer_portal_control.Prelude.{
  false, List, [], ◌∷◌, ◌≡◌, refl, sym, ap, ◌∙◌, inl, inr, arith, In, Bool-cases, if◌then◌else◌,
}
use developer_portal_control.Prelude.Outcome.{
  Result, ok, err, Result-cases, is_conflict, is_not_found,
}
use mathlib.Core.Path.{subst}
use developer_portal_control.Client.{Client, Call, Snapshot}
use developer_portal_control.Client.Run.{
  Run, catch, perform, fail, Requeue, query, for_each, finish, done, ◌>>=◌, ◌>>◌, bind-eq-ok,
}
use developer_portal_control.Client.Sends.{Added, same, Sends, Sends-for_each, for_each_next}
use developer_portal_control.Approval.{conclude}

abbrev pub IsStill : Run Requeue → Type 0
IsStill m = (r : Requeue) × (m [] ≡ (ok r, [])) × (r.again ≡ false)

pub Added-nil : (P : Call → Type 0) {a : List Call} → Added P a [] → a ≡ []
Added-nil P same = refl

-- Each step of a loop that goes through and writes nothing does so.
pub for_each-still :
    {A : Type 0} (P : Call → Type 0) (f : A → Run (Unit {0})) (xs : List A) (x : A)
    → ((y : A) → In y xs → Sends P (f y))
    → for_each f xs [] ≡ (ok tt, [])
    → In x xs
    → f x [] ≡ (ok tt, [])
for_each-still P f [] x s e i = absurd i
for_each-still P f (y ∷ ys) x s e i =
    let (p, q, next) = for_each_next f y ys [] (ap (λ z. z.0) e) in
    let nothing = Added-nil P (
      subst (λ z. Added P (f y []).1 z) (ap (λ z. z.1) (sym next ∙ e))
        (Sends-for_each P f ys (λ z j. s z (inr j)) (f y []).1)) in
    let rest : for_each f ys [] ≡ (ok tt, []) = ap (for_each f ys) (sym nothing) ∙ (sym next ∙ e) in
    elim i [
      | inl k ↦ subst (λ z. f z [] ≡ (ok tt, [])) k (λ t. (p t, nothing t))
      | inr j ↦ for_each-still P f ys x (λ z k. s z (inr k)) rest j
    ]

-- A read is no write.
pub query-IsStill :
    {A : Type 0} (c : Client) (f : Snapshot → Result A) (k : A → Run Requeue) (a : A)
    → f (c.snapshot []) ≡ ok a
    → IsStill (query c f >>= k)
    → IsStill (k a)
query-IsStill c f k a e (r, m, n) = (r, rw e at m, n)

finish-ok : (x : Result (Unit {0})) (r : Requeue) → finish x ≡ ok r → r.again ≡ false → x ≡ ok tt
finish-ok (ok u) r e n = refl
finish-ok (err x) r e n = elim (Bool-cases (is_conflict x)) [
  | inl t ↦ absurd (ground arith)
  | inr f ↦ absurd (ground arith)
]

pub conclude-still : (m : Run (Unit {0})) → IsStill (conclude m) → m [] ≡ (ok tt, [])
conclude-still m (r, e, n) = λ t. (finish-ok (m []).0 r (ap (λ z. z.0) e) n t, ap (λ z. z.1) e t)

-- Two runs, one after the other.
pub then-still :
    {B : Type 0} (P : Call → Type 0) (m : Run (Unit {0})) (k : Run B) (b : B)
    → Sends P k
    → (m >> k) [] ≡ (ok b, [])
    → (m [] ≡ (ok tt, [])) × (k [] ≡ (ok b, []))
then-still P m k b s e =
    let (a, p, q, next) = bind-eq-ok m (λ u. k) [] (ap (λ z. z.0) e) in
    let nothing =
      Added-nil P (subst (λ z. Added P (m []).1 z) (ap (λ z. z.1) (sym next ∙ e)) (s (m []).1)) in
    ((λ t. (p t, nothing t)), ap k (sym nothing) ∙ (sym next ∙ e))

-- A write whose answer may be that nothing was found is a write.
pub sent-not_still :
    (c : Client) (w : Call)
    → ¬ (
        catch (perform c w) (λ e. if is_not_found e then done tt else fail e) done [] ≡ (ok tt, []))
sent-not_still c w e = elim (Result-cases (c.answer [] w)) [
  | inl (u, p) ↦ let q = ap (λ z. z.1) (rw p at e) in cc
  | inr (x, p) ↦ elim (Bool-cases (is_not_found x)) [
    | inl t ↦ let q = ap (λ z. z.1) (rw (p, t) at e) in cc
    | inr f ↦ let q = ap (λ z. z.1) (rw (p, f) at e) in cc
  ]
]
