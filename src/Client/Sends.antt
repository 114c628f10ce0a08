-- ===== src/Client/Sends.antt =====
-- Which writes a reconcile can send, and which it has sent when it returns.
use developer_portal_control.Prelude.{List, [], ◌∷◌, ◌≡◌, refl, sym, arith, In, inl, inr}
use mathlib.Core.Path.{subst}
use developer_portal_control.Prelude.Outcome.{Error, Result, Result-cases, ok, err}
use developer_portal_control.Client.{Client, Call}
use developer_portal_control.Client.Run.{Run, resume, ◌>>=◌, ◌>>◌, for_each, perform}

-- `after` is `before` with writes added that satisfy P.
pub data Added (P : Call → Type 0) (before : List Call) : List Call → Type 0 where
  same : Added P before before
  more : {w : Call} {after : List Call} → P w → Added P before after → Added P before (w ∷ after)

-- Whatever has been written before, every write that `m` sends satisfies P.
abbrev pub Sends : {A : Type 0} → (Call → Type 0) → Run A → Type 0
Sends P m = (h : List Call) → Added P h (m h).1

pub Added-trans : (P : Call → Type 0) {a b c : List Call} → Added P a b → Added P b c → Added P a c
Added-trans P p same = p
Added-trans P p (more w q) = more w (Added-trans P p q)

-- What was there before is still there.
pub Added-In : (P : Call → Type 0) (w : Call) {a b : List Call} → Added P a b → In w a → In w b
Added-In P w same i = i
Added-In P w (more p q) i = inr (Added-In P w q i)

-- What is there and was not there before satisfies P.
pub Added-new : (P : Call → Type 0) (w : Call) {b : List Call} → Added P [] b → In w b → P w
Added-new P w same i = absurd i
Added-new P w (more p q) (inl e) = subst P e p
Added-new P w (more p q) (inr i) = Added-new P w q i

module _ (P : Call → Type 0) where
  pub Sends-perform : (c : Client) (w : Call) → P w → Sends P (perform c w)
  Sends-perform c w p h = more p same

  Sends-resume :
      {A B : Type 0} (r : Result A) (h : List Call) (f : A → Run B)
      → ((a : A) → r ≡ ok a → Sends P (f a))
      → Added P h (resume r h f).1
  Sends-resume (ok a) h f s = s a refl h
  Sends-resume (err e) h f s = same

  pub Sends-bind :
      {A B : Type 0} (m : Run A) (f : A → Run B)
      → Sends P m
      → ((h : List Call) (a : A) → (m h).0 ≡ ok a → Sends P (f a))
      → Sends P (m >>= f)
  Sends-bind m f s t h = Added-trans P (s h) (Sends-resume (m h).0 (m h).1 f (t h))

  pub Sends-then :
      {B : Type 0} (m : Run (Unit {0})) (k : Run B) → Sends P m → Sends P k → Sends P (m >> k)
  Sends-then m k s t = Sends-bind m (λ u. k) s (λ h a e. t)

  for_each_step :
      {A : Type 0} (f : A → Run (Unit {0})) (x : A) (xs : List A) (h : List Call)
      → Added P h (f x h).1
      → Added P (f x h).1 (for_each f xs (f x h).1).1
      → Added P h (for_each f (x ∷ xs) h).1
  unfolding for_each
  for_each_step f x xs h p q = elim (Result-cases (f x h).0) [
    | inl (u, e) ↦ rw (e, for_each) (Added-trans P p q)
    | inr (u, e) ↦ rw (e, for_each) p
  ]

  pub Sends-for_each :
      {A : Type 0} (f : A → Run (Unit {0})) (xs : List A)
      → ((x : A) → In x xs → Sends P (f x))
      → Sends P (for_each f xs)
  unfolding for_each
  Sends-for_each f [] s h = same
  Sends-for_each f (x ∷ xs) s h =
      for_each_step f x xs h (s x (inl refl) h) (Sends-for_each f xs (λ y i. s y (inr i)) (f x h).1)

-- The item of a loop that has gone through has been run.
abbrev pub Ran : {A : Type 0} → (Call → Type 0) → (A → Run (Unit {0})) → A → List Call → Type 0
Ran P f x after = (before : List Call) × ((f x before).0 ≡ ok tt) × Added P (f x before).1 after

pub for_each_next :
    {A : Type 0} (f : A → Run (Unit {0})) (y : A) (ys : List A) (h : List Call)
    → (for_each f (y ∷ ys) h).0 ≡ ok tt
    → ((f y h).0 ≡ ok tt)
      × ((for_each f ys (f y h).1).0 ≡ ok tt)
      × (for_each f (y ∷ ys) h ≡ for_each f ys (f y h).1)
unfolding for_each
for_each_next f y ys h e = elim (Result-cases (f y h).0) [
  | inl (u, p) ↦ (p, ground arith, rw (p, for_each) refl)
  | inr (u, p) ↦ absurd (ground arith)
]

-- A loop that has gone through has run each item, after some writes and before others.
pub for_each-Ran :
    {A : Type 0} (P : Call → Type 0) (f : A → Run (Unit {0})) (xs : List A) (h : List Call) (x : A)
    → ((y : A) → Sends P (f y))
    → (for_each f xs h).0 ≡ ok tt
    → In x xs
    → Ran P f x (for_each f xs h).1
for_each-Ran P f [] h x s e i = absurd i
for_each-Ran P f (y ∷ ys) h x s e (inl q) =
    let (p, r, next) = for_each_next f y ys h e in
    rw next (
      subst (λ z. Ran P f z (for_each f ys (f y h).1).1) q
        (h, p, Sends-for_each P f ys (λ z j. s z) (f y h).1))
for_each-Ran P f (y ∷ ys) h x s e (inr j) =
    let (p, r, next) = for_each_next f y ys h e in rw next (for_each-Ran P f ys (f y h).1 x s r j)

-- A loop with an item that always fails fails.
pub for_each-fails :
    {A : Type 0} (f : A → Run (Unit {0})) (xs : List A) (x : A) (e : List Call → Error)
    → In x xs
    → ((h : List Call) → (f x h).0 ≡ err (e h))
    → (h : List Call) → (u : Error) × ((for_each f xs h).0 ≡ err u)
unfolding for_each
for_each-fails f [] x e i fails h = absurd i
for_each-fails f (y ∷ ys) x e (inl q) fails h =
    (e h, ground (arith, subst (λ z. (f z h).0 ≡ err (e h)) (sym q) (fails h)))
for_each-fails f (y ∷ ys) x e (inr i) fails h = elim (Result-cases (f y h).0) [
  | inl (u, p) ↦ let (v, q) = for_each-fails f ys x e i fails (f y h).1 in (v, ground arith)
  | inr (v, p) ↦ (v, ground arith)
]
