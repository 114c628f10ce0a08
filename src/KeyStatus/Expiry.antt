-- ===== src/KeyStatus/Expiry.antt =====
-- When a reconcile of all keys asks to be called again.
use mathlib.Core.Path.{subst}
use developer_portal_control.Prelude.{
  ℕ, ◌≤◌, ◌<◌, false, Option, none, some, List, [], ◌∷◌, ◌≡◌, refl, sym, ap, ◌∙◌, ◌⊎◌, inl, inr,
  arith, In, ltb, keep, Bool-cases, nat_eq, ◌&&◌, ◌||◌,
}
use developer_portal_control.Prelude.Outcome.{Result-cases, ok-injective, ok}
use developer_portal_control.Api.Key.{ApiKey}
use developer_portal_control.Deps.{Deps}
use developer_portal_control.Client.{Client, Call}
use developer_portal_control.Client.Run.{query, bind-eq-ok, Requeue}
use developer_portal_control.Helper.{Context}
use developer_portal_control.KeyStatus.Reconcile.{
  track_expiry, time_sub, reconcile_keys, reconcile_status, reconcile, is_active,
}

-- The time from `now` to an expiry that lies ahead.
abbrev pub LiesIn : ℕ → Option ℕ → ℕ → Type 0
LiesIn now expires_at n = (t : ℕ) × (expires_at ≡ some t) × (now < t) × (n ≡ time_sub t now)

-- `n` is the least of the times to an expiry that lies ahead, and of `start`, if that is not 0; it
-- is 0 if there are none.
pub record IsEarliest (now start : ℕ) (keys : List ApiKey) (n : ℕ) : Type 0 where
  pub bounds :
      (key : ApiKey) (m : ℕ) → In key keys → LiesIn now key.spec.expires_at m → (0 < n) × (n ≤ m)
  pub bounds_start : 0 < start → (0 < n) × (n ≤ start)
  pub attained : (n ≡ start) ⊎ ((key : ApiKey) × In key keys × LiesIn now key.spec.expires_at n)

track_bounds :
    (now : ℕ) (o : Option ℕ) (start m : ℕ)
    → LiesIn now o m
    → (0 < track_expiry now o start) × (track_expiry now o start ≤ m)
unfolding track_expiry
track_bounds now none start m (t, e, h, p) = cc
track_bounds now (some u) start m (t, e, h, p) = ground arith

track_bounds_start :
    (now : ℕ) (o : Option ℕ) (start : ℕ)
    → 0 < start
    → (0 < track_expiry now o start) × (track_expiry now o start ≤ start)
unfolding track_expiry
track_bounds_start now none start h = (h, omega arith)
track_bounds_start now (some u) start h = ground arith

track_attained :
    (now : ℕ) (o : Option ℕ) (start : ℕ)
    → (track_expiry now o start ≡ start) ⊎ LiesIn now o (track_expiry now o start)
unfolding track_expiry
track_attained now none start = inl refl
track_attained now (some u) start =
    elim (Bool-cases (ltb now u && (nat_eq start 0 || ltb (time_sub u now) start))) [
      | inl e ↦ rw e (inr (u, refl, ground arith, refl))
      | inr e ↦ rw e (inl refl)
    ]

IsEarliest-cons :
    (now start : ℕ) (key : ApiKey) (keys : List ApiKey) (n : ℕ)
    → IsEarliest now (track_expiry now key.spec.expires_at start) keys n
    → IsEarliest now start (key ∷ keys) n
IsEarliest-cons now start key keys n v = record {
  bounds = bound;
  bounds_start = λ h.
      let (p, q) = track_bounds_start now key.spec.expires_at start h in
      let (p', q') = v.bounds_start p in (p', omega arith);
  attained = attain v.attained;
}
  where
    bound :
        (k : ApiKey) (m : ℕ)
        → In k (key ∷ keys)
        → LiesIn now k.spec.expires_at m
        → (0 < n) × (n ≤ m)
    bound k m (inl e) l =
        let (p, q) =
          track_bounds now key.spec.expires_at start m
            (subst (λ (x : ApiKey). LiesIn now x.spec.expires_at m) (sym e) l) in
        let (p', q') = v.bounds_start p in (p', omega arith)
    bound k m (inr i) l = v.bounds k m i l

    first_or_start :
        n ≡ track_expiry now key.spec.expires_at start
        → (n ≡ start) ⊎ ((k : ApiKey) × In k (key ∷ keys) × LiesIn now k.spec.expires_at n)
    first_or_start e = elim (track_attained now key.spec.expires_at start) [
      | inl p ↦ inl (e ∙ p)
      | inr p ↦ inr (key, inl refl, subst (LiesIn now key.spec.expires_at) (sym e) p)
    ]

    attain :
        (n ≡ track_expiry now key.spec.expires_at start)
          ⊎ ((k : ApiKey) × In k keys × LiesIn now k.spec.expires_at n)
        → (n ≡ start) ⊎ ((k : ApiKey) × In k (key ∷ keys) × LiesIn now k.spec.expires_at n)
    attain (inl e) = first_or_start e
    attain (inr (k, i, l)) = inr (k, inr i, l)

module _ (d : Deps) (c : Client) (ctx : Context) (now : ℕ) where
  keys-IsEarliest :
      (start : ℕ) (keys : List ApiKey) (h : List Call) (r : Requeue)
      → (reconcile_keys d c ctx now start keys h).0 ≡ ok r
      → r.again ≡ false
      → IsEarliest now start keys r.after
  unfolding reconcile_keys
  keys-IsEarliest start [] h r e a = record {
    bounds = λ key m i l. absurd i;
    bounds_start = λ p. ground arith;
    attained = inl (ground arith);
  }
  keys-IsEarliest start (key ∷ keys) h r e a =
      elim (Result-cases (reconcile_status d c ctx now key h).0) [
        | inr (x, p) ↦ absurd (ground arith)
        | inl (u, p) ↦ IsEarliest-cons now start key keys r.after (
            keys-IsEarliest (track_expiry now key.spec.expires_at start) keys
              (reconcile_status d c ctx now key h).1 r (ground arith) a)
      ]

module _ (d : Deps) (c : Client) (now : ℕ) where
  -- When the reconcile of all keys has gone through and asks for no immediate retry, it asks to be
  -- called again after the least of the times until a listed key that is not being deleted expires,
  -- among those that expire in the future; if none does, it asks for nothing.
  pub reconcile-IsEarliest :
      (keys : List ApiKey) (r : Requeue)
      → (c.snapshot []).list_keys ≡ ok keys
      → (reconcile d c now []).0 ≡ ok r
      → r.again ≡ false
      → IsEarliest now 0 (keep is_active keys) r.after
  unfolding reconcile
  reconcile-IsEarliest keys r e h a =
      let (ks, p, h₁, _) = bind-eq-ok (query c (λ s. s.list_keys)) _ [] h in
      let (rs, q, h₂, _) = bind-eq-ok (query c (λ s. s.list_requests)) _ [] h₁ in
      let (as', t, h₃, _) = bind-eq-ok (query c (λ s. s.list_approvals)) _ [] h₂ in
      let same : ks ≡ keys = ok-injective (sym p ∙ e) in
      subst (λ xs. IsEarliest now 0 xs r.after)
        (d.lo.filter_lem is_active ks ∙ ap (keep is_active) same)
        (keys-IsEarliest d c _ now 0 _ [] r h₃ a)
