-- ===== src/Main/Start.antt =====
-- How the main function ends: with the manager started, or at the first call that fails.
use mathlib.Core.Path.{subst}
use developer_portal_control.Prelude.{
  String, Bool, true, false, Option, none, some, List, [], ◌∷◌, ◌++◌, ◌≡◌, refl, sym, ap, ◌∙◌, ◌⊎◌,
  inl, inr, any, arith,
}
use developer_portal_control.Prelude.Outcome.{ok, err, Result-cases, Error}
use developer_portal_control.Main.{Flags, Step, start, World, Parsed, run_main, resumed, exit_on}
use developer_portal_control.Main.Plan.{
  performed, plan, preparation, preparation-any, controllers, webhook_watcher, metrics_watcher,
  main-plan,
}

-- The calls, newest first, after those of the list.
abbrev pub trail : List Step → List Step → List Step
trail [] h = h
trail (s ∷ ss) h = trail ss (s ∷ h)

-- Each call of the list succeeds, after those before it.
abbrev pub Succeeds : World → List Step → List Step → Type 0
Succeeds w [] h = Unit {0}
Succeeds w (s ∷ ss) h = (w h s ≡ ok tt) × Succeeds w ss (s ∷ h)

-- A call of the list fails, and those before it succeed: it is the last one made.
abbrev pub Stops : World → List Step → List Step → List Step → Type 0
Stops w ss h calls =
    (before : List Step) × (s : Step) × (after : List Step) × (e : Error) × (ss
      ≡ before ++ (s ∷ after))
    × Succeeds w before h
    × (w (trail before h) s ≡ err e)
    × (calls ≡ s ∷ trail before h)

-- Either all calls of the list succeed, or the main function has stopped at one.
abbrev pub Ends : World → List Step → List Step → Option (Unit {0}) × List Step → Type 0
Ends w ss h r = (Succeeds w ss h × (r ≡ (some tt, trail ss h))) ⊎ ((r.0 ≡ none) × Stops w ss h r.1)

abbrev pub is_start : Step → Bool
is_start start = true
is_start _ = false

module _ (w : World) where
  after_success :
      (s : Step) (ss h : List Step) (r : Option (Unit {0}) × List Step)
      → w h s ≡ ok tt
      → Ends w ss (s ∷ h) r
      → Ends w (s ∷ ss) h r
  after_success s ss h r e (inl (a, p)) = inl ((e, a), p)
  after_success s ss h r e (inr (n, (b, t, a, x, eq, good, bad, calls))) =
      inr (n, (s ∷ b, t, a, x, ap (λ l. s ∷ l) eq, (e, good), bad, calls))

  performed-Ends : (ss h : List Step) → Ends w ss h (performed w ss h)
  unfolding performed
  performed-Ends [] h = inl (tt, refl)
  performed-Ends (s ∷ ss) h = elim (Result-cases (w h s)) [
    | inl (u, e) ↦ after_success s ss h _ e (
        subst (λ r. Ends w ss (s ∷ h) (resumed (exit_on r, s ∷ h) (λ _. performed w ss))) (sym e)
          (performed-Ends ss (s ∷ h)))
    | inr (x, e) ↦
        subst (λ r. Ends w (s ∷ ss) h (resumed (exit_on r, s ∷ h) (λ _. performed w ss))) (sym e)
          (inr (refl, ([], s, ss, x, refl, tt, e, refl)))
  ]

  -- Where the start is the last call of the list, and it is made, the others have succeeded.
  start_is_last :
      (ss h : List Step)
      → any is_start ss ≡ false
      → any is_start h ≡ false
      → any is_start (performed w (ss ++ (start ∷ [])) h).1 ≡ true
      → Succeeds w ss h × ((performed w (ss ++ (start ∷ [])) h).1 ≡ start ∷ trail ss h)
  unfolding performed
  start_is_last [] h n m i = (tt, last (exit_on (w h start)))
    where
      last : (o : Option (Unit {0})) → (resumed (o, start ∷ h) (λ _. performed w [])).1 ≡ start ∷ h
      last none = refl
      last (some u) = refl
  start_is_last (s ∷ ss) h n m i = elim (Result-cases (w h s)) [
    | inl (u, e) ↦
        let (good, p) = start_is_last ss (s ∷ h) (ground arith) (ground arith) (
          subst
            (λ r.
              any is_start (resumed (exit_on r, s ∷ h) (λ _. performed w (ss ++ (start ∷ [])))).1
              ≡ true)
            e i) in
        (
          (e, good),
          subst
              (λ r.
                (resumed (exit_on r, s ∷ h) (λ _. performed w (ss ++ (start ∷ [])))).1
                ≡ start ∷ trail ss (s ∷ h))
              (sym e) p,
        )
    | inr (x, e) ↦
        let j =
          subst
            (λ r.
              any is_start (resumed (exit_on r, s ∷ h) (λ _. performed w (ss ++ (start ∷ [])))).1
              ≡ true)
            e i in
        absurd (ground arith)
  ]

module _ (w : World) (join : String → String → String) (atoi : String → Parsed) (flags : Flags)
    (env : String) where
  -- The main function makes the calls of the plan in order: either all of them succeed and it
  -- returns, or it exits with status 1 at the first call that fails, and makes none after it. The
  -- plan depends only on the flags and on the environment.
  pub main-Ends : Ends w (plan join atoi flags env) [] (run_main w join atoi flags env [])
  main-Ends =
      subst (Ends w (plan join atoi flags env) []) (sym (main-plan w join atoi flags env []))
        (performed-Ends w (plan join atoi flags env) [])

  no_start : any is_start (preparation join atoi flags env) ≡ false
  unfolding controllers
  no_start =
      preparation-any join atoi is_start flags env (webhook_watcher join atoi flags)
        (metrics_watcher join atoi flags) (λ a. (refl, refl)) refl

  -- Where the manager has been started, every other call has succeeded: the certificates are
  -- watched, the manager is made, and the eight controllers, the watchers and the two checks are
  -- added to it, each once and in the order of the plan, and the start is the last call.
  pub started_last :
      any is_start (run_main w join atoi flags env []).1 ≡ true
      → Succeeds w (preparation join atoi flags env) []
        × ((run_main w join atoi flags env []).1
            ≡ start ∷ trail (preparation join atoi flags env) [])
  started_last i =
      let same = main-plan w join atoi flags env [] in
      let (good, calls) =
        start_is_last w (preparation join atoi flags env) [] no_start refl
          (subst (λ r. any is_start r.1 ≡ true) same i) in
      (good, ap (λ r. r.1) same ∙ calls)
