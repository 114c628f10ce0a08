-- ===== src/Main/Plan.antt =====
-- The calls of the main function as a list: each is made unless one before it has failed.
use mathlib.Core.Path.{subst}
use developer_portal_control.Prelude.{
  String, ℕ, Option, none, some, List, [], ◌∷◌, ◌++◌, ◌≡◌, refl, sym, ap, ◌∙◌, inl, inr, Bool-cases,
  ◌==◌, if◌then◌else◌, any, Bool, false, arith,
}
use developer_portal_control.Watches.{
  product_setup, request_setup, request_status_setup, key_status_setup, approval_setup,
  approval_status_setup, auto_approval_setup, secret_setup,
}
use developer_portal_control.Main.{
  Flags, Watcher, Step, new_watcher, new_manager, set_up, add_watcher, add_healthz, add_readyz,
  start, World, Start, Parsed, resumed, ◌>>=◌, ◌>>◌, exit_on, step, open_api_max_size,
  manager_options, watcher_at, certificate_watcher, add_if_any, set_up_controllers, run_main,
}

-- Make the calls of the list, up to the first that fails.
unfoldable pub performed : World → List Step → Start (Unit {0})
performed w [] h = (some tt, h)
performed w (s ∷ ss) h = resumed (step w s h) (λ _. performed w ss)

-- The code makes these calls.
record Performs (w : World) (m : Start (Unit {0})) (ss : List Step) : Type 0 where
  makes : (h : List Step) → m h ≡ performed w ss h

-- It makes these calls, and where they succeed it returns this value.
record Gives (w : World) {A : Type 0} (m : Start A) (x : A) (ss : List Step) : Type 0 where
  makes_and_returns : (h : List Step) → m h ≡ resumed (performed w ss h) (λ _ g. (some x, g))

-- The eight controllers, with the limit of the first.
unfoldable pub controllers : ℕ → List Step
controllers max_size =
    set_up product_setup (some max_size)
    ∷ set_up request_setup none
    ∷ set_up request_status_setup none
    ∷ set_up key_status_setup none
    ∷ set_up approval_setup none
    ∷ set_up approval_status_setup none
    ∷ set_up auto_approval_setup none
    ∷ set_up secret_setup none
    ∷ []

abbrev pub if_any : (Watcher → Step) → Option Watcher → List Step
if_any f none = []
if_any f (some watcher) = f watcher ∷ []

module _ (join : String → String → String) (atoi : String → Parsed) where
  abbrev pub watcher_for : String → String → String → Option Watcher
  watcher_for path name key = if path == "" then none else some (watcher_at join path name key)

  abbrev pub webhook_watcher : Flags → Option Watcher
  webhook_watcher flags =
      watcher_for flags.webhook_cert_path flags.webhook_cert_name flags.webhook_cert_key

  abbrev pub metrics_watcher : Flags → Option Watcher
  metrics_watcher flags =
      watcher_for flags.metrics_cert_path flags.metrics_cert_name flags.metrics_cert_key

  -- The calls before the manager is started, with the watchers that there are.
  unfoldable pub preparation_of : Flags → String → Option Watcher → Option Watcher → List Step
  preparation_of flags env webhook metrics =
      if_any new_watcher webhook
      ++ (if_any new_watcher metrics
          ++ ((new_manager (manager_options flags webhook metrics) ∷ [])
              ++ (controllers (open_api_max_size atoi env)
                  ++ (if_any add_watcher metrics
                      ++ (if_any add_watcher webhook ++ (add_healthz ∷ add_readyz ∷ []))))))

  abbrev pub preparation : Flags → String → List Step
  preparation flags env = preparation_of flags env (webhook_watcher flags) (metrics_watcher flags)

  abbrev pub plan : Flags → String → List Step
  plan flags env = preparation flags env ++ (start ∷ [])

  -- The start comes after the checks.
  preparation-start :
      (flags : Flags) (env : String) (webhook metrics : Option Watcher)
      → if_any new_watcher webhook
          ++ (if_any new_watcher metrics
              ++ ((new_manager (manager_options flags webhook metrics) ∷ [])
                  ++ (controllers (open_api_max_size atoi env)
                      ++ (if_any add_watcher metrics
                          ++ (if_any add_watcher webhook
                              ++ (add_healthz ∷ add_readyz ∷ start ∷ []))))))
        ≡ preparation_of flags env webhook metrics ++ (start ∷ [])
  unfolding preparation_of controllers
  preparation-start flags env none none = refl
  preparation-start flags env none (some m) = refl
  preparation-start flags env (some a) none = refl
  preparation-start flags env (some a) (some m) = refl

  pub preparation-any :
      (test : Step → Bool) (flags : Flags) (env : String) (webhook metrics : Option Watcher)
      → ((a : Watcher) → (test (new_watcher a) ≡ false) × (test (add_watcher a) ≡ false))
      → any test (
          new_manager (manager_options flags webhook metrics)
            ∷ controllers (open_api_max_size atoi env)
          ++ (add_healthz ∷ add_readyz ∷ []))
        ≡ false
      → any test (preparation_of flags env webhook metrics) ≡ false
  unfolding preparation_of controllers
  preparation-any test flags env none none h e = e
  preparation-any test flags env none (some m) h e = ground (arith, h m)
  preparation-any test flags env (some a) none h e = ground (arith, h a)
  preparation-any test flags env (some a) (some m) h e = ground (arith, h a, h m)

module _ (w : World) where
  -- A step, and then others.
  then-performed :
      (x : Option (Unit {0}) × List Step) (ss ts : List Step)
      → ((h : List Step)
          → performed w (ss ++ ts) h ≡ resumed (performed w ss h) (λ _. performed w ts))
      → resumed x (λ _. performed w (ss ++ ts))
        ≡ resumed (resumed x (λ _. performed w ss)) (λ _. performed w ts)
  then-performed (some u, h) ss ts e = e h
  then-performed (none, h) ss ts e = refl

  performed-append :
      (ss ts : List Step) (h : List Step)
      → performed w (ss ++ ts) h ≡ resumed (performed w ss h) (λ _. performed w ts)
  unfolding performed
  performed-append [] ts h = refl
  performed-append (s ∷ ss) ts h = then-performed (step w s h) ss ts (performed-append ss ts)

  step-Performs : (s : Step) → Performs w (step w s) (s ∷ [])
  unfolding performed
  step-Performs s = record { makes = λ h. last h (exit_on (w h s)) }
    where
      last :
          (h : List Step) (o : Option (Unit {0}))
          → (o, s ∷ h) ≡ resumed (o, s ∷ h) (λ _ g. (some tt, g))
      last h none = refl
      last h (some u) = refl

  then-Performs :
      {m n : Start (Unit {0})} {ss ts : List Step}
      → Performs w m ss
      → Performs w n ts
      → Performs w (m >> n) (ss ++ ts)
  then-Performs {m} {n} {ss} {ts} e f = record {
    makes = λ h.
        ap (λ x. resumed x (λ _. n)) (e.makes h)
        ∙ (goes_on (performed w ss h) ∙ sym (performed-append ss ts h));
  }
    where
      goes_on :
          (x : Option (Unit {0}) × List Step) → resumed x (λ _. n) ≡ resumed x (λ _. performed w ts)
      goes_on (some u, g) = f.makes g
      goes_on (none, g) = refl

  bind-Performs :
      {A : Type 0} {m : Start A} (k : A → Start (Unit {0})) {x : A} {ss ts : List Step}
      → Gives w m x ss
      → Performs w (k x) ts
      → Performs w (m >>= k) (ss ++ ts)
  bind-Performs {A} {m} k {x} {ss} {ts} e f = record {
    makes = λ h.
        ap (λ r. resumed r k) (e.makes_and_returns h)
        ∙ (goes_on (performed w ss h) ∙ sym (performed-append ss ts h));
  }
    where
      goes_on :
          (r : Option (Unit {0}) × List Step)
          → resumed (resumed r (λ _ g. (some x, g))) k ≡ resumed r (λ _. performed w ts)
      goes_on (some u, g) = f.makes g
      goes_on (none, g) = refl

  add-Performs : (o : Option Watcher) → Performs w (add_if_any w o) (if_any add_watcher o)
  unfolding add_if_any performed
  add-Performs none = record { makes = λ h. refl }
  add-Performs (some x) = record { makes = (step-Performs (add_watcher x)).makes }

  module _ (join : String → String → String) (atoi : String → Parsed) where
    watcher-Gives :
        (path name key : String)
        → Gives w
            (certificate_watcher w join path name key)
            (watcher_for join atoi path name key)
            (if_any new_watcher (watcher_for join atoi path name key))
    unfolding certificate_watcher performed
    watcher-Gives path name key = record {
      makes_and_returns = λ h. elim (Bool-cases (path == "")) [
        | inl e ↦ rw e refl
        | inr e ↦ rw e (made h (exit_on (w h (new_watcher (watcher_at join path name key)))))
      ];
    }
      where
        made :
            (h : List Step) (o : Option (Unit {0}))
            → let x = some (watcher_at join path name key) in
              let g = new_watcher (watcher_at join path name key) ∷ h in
              resumed (o, g) (λ _ g. (some x, g))
              ≡ resumed (resumed (o, g) (λ _ g. (some tt, g))) (λ _ g. (some x, g))
        made h none = refl
        made h (some u) = refl

    controllers-Performs :
        (max_size : ℕ) → Performs w (set_up_controllers w max_size) (controllers max_size)
    unfolding set_up_controllers controllers
    controllers-Performs max_size =
        then-Performs
          (then-Performs
            (then-Performs
              (then-Performs
                (then-Performs
                  (then-Performs (then-Performs (step-Performs _) (step-Performs _))
                    (step-Performs _))
                  (step-Performs _))
                (step-Performs _))
              (step-Performs _))
            (step-Performs _))
          (step-Performs _)

    main-Performs :
        (flags : Flags) (env : String)
        → Performs w (run_main w join atoi flags env) (plan join atoi flags env)
    unfolding run_main
    main-Performs flags env =
        subst (Performs w (run_main w join atoi flags env))
          (preparation-start join atoi flags env (webhook_watcher join atoi flags)
            (metrics_watcher join atoi flags))
          (bind-Performs _
            (watcher-Gives flags.webhook_cert_path flags.webhook_cert_name flags.webhook_cert_key)
            (bind-Performs _
              (watcher-Gives flags.metrics_cert_path flags.metrics_cert_name flags.metrics_cert_key)
              (then-Performs
                (step-Performs (
                  new_manager (
                    manager_options flags (webhook_watcher join atoi flags)
                      (metrics_watcher join atoi flags))))
                (then-Performs (controllers-Performs (open_api_max_size atoi env)) (
                  then-Performs (add-Performs (metrics_watcher join atoi flags)) (
                    then-Performs (add-Performs (webhook_watcher join atoi flags)) (
                      then-Performs (step-Performs add_healthz)
                        (then-Performs (step-Performs add_readyz) (step-Performs start)))))))))

    -- The main function makes the calls of the plan in order, up to and including the first that
    -- fails: it returns where all succeed, and exits with status 1 at the first that does not.
    pub main-plan :
        (flags : Flags) (env : String) (h : List Step)
        → run_main w join atoi flags env h ≡ performed w (plan join atoi flags env) h
    main-plan flags env = (main-Performs flags env).makes
