-- ===== src/Secret/Store.antt =====
-- The enforcement secrets as a store of names: what the API server does to it where it accepts a
-- write, and what one step of each loop does.
use mathlib.Core.Path.{subst}
use developer_portal_control.Prelude.{
  String, Bool, true, false, ◌||◌, ◌&&◌, not, List, ◌∷◌, ◌≡◌, refl, sym, ap, ◌∙◌, inl, inr,
  Bool-cases, ◌==◌, eq_iff, if◌then◌else◌,
}
use developer_portal_control.Prelude.Outcome.{Result, ok, err, is_not_found, Result-cases}
use developer_portal_control.Api.External.{Secret}
use developer_portal_control.Api.Key.{ApiKey}
use developer_portal_control.Deps.{Deps}
use developer_portal_control.Client.{Client, Call, create_secret, delete_secret}
use developer_portal_control.Client.Run.{catch, perform, done}
use developer_portal_control.Reconcilers.{reconcile_read, reconcile_resource, create_only_mutator}
use developer_portal_control.Secret.Desired.{
  enforcement_secret, enforcement_secret_name, desired_enforcement_secret,
}
use developer_portal_control.Secret.Computed.{desired_of_read, read-eq-ok, not-tagged}
use developer_portal_control.Secret.Reconcile.{
  secret_kind, reconcile_key, clean_up, is_valid_name, unless_not_found,
}

abbrev pub is_ok : {A : Type 0} → Result A → Bool
is_ok (ok a) = true
is_ok (err e) = false

-- After these writes, a secret of this name can be read in the namespace.
abbrev pub exists_secret : Client → String → List Call → String → Bool
exists_secret c namespace h name =
    is_ok ((c.snapshot h).get_secret (record { namespace = namespace; name = name }))

-- A deletion has succeeded, or has found nothing.
abbrev pub IsGone : Result (Unit {0}) → Type 0
IsGone (ok u) = Unit {0}
IsGone (err e) = is_not_found e ≡ true

-- What the API server does to the secrets of a namespace, where nobody else writes them and no
-- finalizer holds them back: a creation that is accepted adds the name, a deletion that is accepted,
-- or finds nothing, leaves the name out, and neither touches another name.
pub record SecretStore (c : Client) (namespace : String) : Type 0 where
  pub after_create :
      (h : List Call) (s : Secret)
      → s.namespace ≡ namespace
      → c.answer h (create_secret s) ≡ ok tt
      → (name : String)
      → exists_secret c namespace (create_secret s ∷ h) name
        ≡ (s.name == name || exists_secret c namespace h name)
  pub after_delete :
      (h : List Call) (s : Secret)
      → s.namespace ≡ namespace
      → IsGone (c.answer h (delete_secret s))
      → (name : String)
      → exists_secret c namespace (delete_secret s ∷ h) name
        ≡ (if s.name == name then false else exists_secret c namespace h name)

kept_by_false : (b x : Bool) → x ≡ (if b && false then false else x)
kept_by_false true x = refl
kept_by_false false x = refl

taken_by_true : (b x : Bool) → (if b then false else x) ≡ (if b && true then false else x)
taken_by_true true x = refl
taken_by_true false x = refl

module _ (d : Deps) (c : Client) (namespace : String) (store : SecretStore c namespace) where
  already :
      (h : List Call) (n name : String) (existing : Secret)
      → (c.snapshot h).get_secret (record { namespace = namespace; name = n }) ≡ ok existing
      → exists_secret c namespace h name ≡ (n == name || exists_secret c namespace h name)
  already h n name existing p = elim (Bool-cases (n == name)) [
    | inl e ↦
        rw e (subst (λ m. exists_secret c namespace h m ≡ true) ((eq_iff n name).0 e) (ap is_ok p))
    | inr e ↦ rw e refl
  ]

  -- A key's step, by the answer to the read of its enforcement secret.
  by_read :
      (key : ApiKey) (value : String) (h : List Call) (r : Result Secret)
      → (c.snapshot h).get_secret
          (record { namespace = namespace; name = enforcement_secret_name d.texts key })
        ≡ r
      → (reconcile_read secret_kind c
          (enforcement_secret d key namespace value)
          create_only_mutator
          r
          h).0
        ≡ ok tt
      → (name : String)
      → exists_secret c namespace
          (reconcile_read secret_kind c
            (enforcement_secret d key namespace value)
            create_only_mutator
            r
            h).1
          name
        ≡ (enforcement_secret_name d.texts key == name || exists_secret c namespace h name)
  unfolding reconcile_read enforcement_secret
  by_read key value h (ok existing) p e name =
      rw (not-tagged d key namespace value)
        (already h (enforcement_secret_name d.texts key) name existing p)
  by_read key value h (err x) p e name = elim (Bool-cases (is_not_found x)) [
    | inl f ↦
        rw (f, not-tagged d key namespace value)
          (store.after_create h (enforcement_secret d key namespace value) refl
            (rw (f, not-tagged d key namespace value) at e) name)
    | inr f ↦ let g = rw f at e in cc
  ]

  -- The step of a key that succeeds adds the name of its secret.
  pub key_adds :
      (key : ApiKey) (h : List Call)
      → (reconcile_key d c namespace key h).0 ≡ ok tt
      → (name : String)
      → exists_secret c namespace (reconcile_key d c namespace key h).1 name
        ≡ (enforcement_secret_name d.texts key == name || exists_secret c namespace h name)
  unfolding reconcile_key reconcile_resource enforcement_secret
  key_adds key h e name =
      elim (Result-cases (desired_enforcement_secret d (c.snapshot h) key namespace)) [
        | inr (x, p) ↦ let g = rw p at e in cc
        | inl (s, p) ↦
            let (consumer, value, q, l, n, same) =
              read-eq-ok d key namespace _ s (desired_of_read d (c.snapshot h) key namespace s p) in
            rw (p ∙ ap ok same) (by_read key value h _ refl (rw (p ∙ ap ok same) at e) name)
      ]

  -- A deletion, by its answer, where the step that makes it succeeds.
  deleted :
      (s : Secret) (h : List Call) (r : Result (Unit {0}))
      → s.namespace ≡ namespace
      → c.answer h (delete_secret s) ≡ r
      → (catch (perform c (delete_secret s)) unless_not_found done h).0 ≡ ok tt
      → (name : String)
      → exists_secret c namespace
          (catch (perform c (delete_secret s)) unless_not_found done h).1
          name
        ≡ (if s.name == name then false else exists_secret c namespace h name)
  deleted s h (ok u) n a e name =
      rw (a, catch) (store.after_delete h s n (subst IsGone (sym a) tt) name)
  deleted s h (err x) n a e name = elim (Bool-cases (is_not_found x)) [
    | inl f ↦ rw (a, catch, f) (store.after_delete h s n (subst IsGone (sym a) f) name)
    | inr f ↦ let g = rw (a, catch, f) at e in cc
  ]

  unless_valid :
      (approved : List ApiKey) (n name : String) (b x : Bool)
      → is_valid_name d approved n ≡ b
      → (if n == name && not (is_valid_name d approved name) then false else x)
        ≡ (if n == name && not b then false else x)
  unless_valid approved n name b x v = elim (Bool-cases (n == name)) [
    | inl e ↦ rw (e, sym (ap (is_valid_name d approved) ((eq_iff n name).0 e)) ∙ v) refl
    | inr e ↦ rw e refl
  ]

  -- The step of a listed secret that succeeds takes its name out, unless it is that of such a key.
  pub clean_up_removes :
      (approved : List ApiKey) (s : Secret) (h : List Call)
      → s.namespace ≡ namespace
      → (clean_up d c approved s h).0 ≡ ok tt
      → (name : String)
      → exists_secret c namespace (clean_up d c approved s h).1 name ≡ (
          if s.name == name && not (is_valid_name d approved name)
          then false
          else exists_secret c namespace h name)
  unfolding clean_up
  clean_up_removes approved s h n e name = elim (Bool-cases (is_valid_name d approved s.name)) [
    | inl v ↦
        rw (v, unless_valid approved s.name name true (exists_secret c namespace h name) v)
          (kept_by_false (s.name == name) (exists_secret c namespace h name))
    | inr v ↦
        rw (v, unless_valid approved s.name name false (exists_secret c namespace h name) v)
          (deleted s h _ n refl (rw v at e) name
            ∙ taken_by_true (s.name == name) (exists_secret c namespace h name))
  ]
