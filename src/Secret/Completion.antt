-- ===== src/Secret/Completion.antt =====
-- What the reconcile of the enforcement secrets has written when it succeeds, and what it leaves
-- undone when it fails.
use mathlib.Core.Path.{subst}
use developer_portal_control.Prelude.{
  String, false, List, [], ◌∷◌, ◌≡◌, refl, sym, ◌∙◌, ◌≢◌, inl, inr, eq-false, In, keep, Bool-cases,
  keep-mem, any-false_of_all,
}
use developer_portal_control.Prelude.Outcome.{Error, Result, ok, err, is_not_found}
use developer_portal_control.Api.External.{Secret}
use developer_portal_control.Api.Key.{ApiKey, is_approved}
use developer_portal_control.Deps.{Deps}
use developer_portal_control.Client.{Client, Call, create_secret, delete_secret}
use developer_portal_control.Client.Run.{
  ◌>>◌, Requeue, done, no_requeue, bind-eq-ok, perform, catch,
}
use developer_portal_control.Client.Sends.{
  same, Sends, Sends-for_each, Added-new, Added-In, for_each-Ran, for_each-fails,
}
use developer_portal_control.KeyStatus.Reconcile.{is_active}
use developer_portal_control.Secret.Desired.{enforcement_secret_name, desired_enforcement_secret}
use developer_portal_control.Secret.Reconcile.{
  reconcile, reconcile_key, clean_up, approved_keys, is_valid_name, unless_not_found,
}
use developer_portal_control.Secret.Safety.{
  IsWanted, answer-Sends, wanted, key-Sends, loops, keys_loop, secrets_loop, Lists, reconcile-loops,
}

module _ (d : Deps) (c : Client) (namespace : String) (keys : List ApiKey)
    (secrets : List Secret) where
  clean_up-Sends_any :
      (secret : Secret) → Sends (λ w. Unit {0}) (clean_up d c (approved_keys d keys) secret)
  unfolding clean_up
  clean_up-Sends_any secret h =
      elim (Bool-cases (is_valid_name d (approved_keys d keys) secret.name)) [
        | inl e ↦ rw e same
        | inr e ↦
            rw e (answer-Sends d c namespace keys secrets _ (delete_secret secret) _ h tt refl)
      ]

  unwanted_name :
      (name : String)
      → ((key : ApiKey) → IsWanted d keys key → enforcement_secret_name d.texts key ≢ name)
      → is_valid_name d (approved_keys d keys) name ≡ false
  unfolding is_valid_name
  unwanted_name name unwanted =
      any-false_of_all _ (approved_keys d keys)
        (λ key i. eq-false _ _ (unwanted key (wanted d c namespace keys secrets key i)))

  answer_sent :
      (w : Call) (r : Result (Unit {0})) (h : List Call)
      → c.answer h w ≡ r
      → (catch (perform c w) unless_not_found done h).1 ≡ w ∷ h
  answer_sent w (ok u) h e = rw (e, catch) refl
  answer_sent w (err x) h e = elim (Bool-cases (is_not_found x)) [
    | inl q ↦ rw (e, catch, q) refl
    | inr q ↦ rw (e, catch, q) refl
  ]

  clean_up_deletes :
      (secret : Secret) (before : List Call)
      → is_valid_name d (approved_keys d keys) secret.name ≡ false
      → In (delete_secret secret) (clean_up d c (approved_keys d keys) secret before).1
  unfolding clean_up
  clean_up_deletes secret before e =
      rw (e, answer_sent (delete_secret secret) _ before refl) (inl refl)

  -- If the reconcile succeeds, it has sent the deletion of every listed enforcement secret whose
  -- name is that of no listed key that is approved and not being deleted.
  pub reconcile_deletes :
      (r : Requeue) (secret : Secret)
      → Lists d c namespace keys secrets
      → (reconcile d c []).0 ≡ ok r
      → In secret secrets
      → ((key : ApiKey) → IsWanted d keys key → enforcement_secret_name d.texts key ≢ secret.name)
      → In (delete_secret secret) (reconcile d c []).1
  reconcile_deletes r secret lists h i unwanted =
      let (u, p, h₁, e₁) =
        bind-eq-ok (keys_loop d c namespace keys secrets)
          (λ x. secrets_loop d c namespace keys secrets >> done no_requeue) []
          (subst (λ x. x.0 ≡ ok r) (reconcile-loops d c namespace keys secrets lists) h) in
      let (v, q, h₂, e₂) =
        bind-eq-ok (secrets_loop d c namespace keys secrets) (λ x. done no_requeue)
          (keys_loop d c namespace keys secrets []).1 h₁ in
      let (before, o, added) =
        for_each-Ran (λ w. Unit {0}) (clean_up d c (approved_keys d keys)) secrets
          (keys_loop d c namespace keys secrets []).1 secret clean_up-Sends_any q i in
      subst (λ x. In (delete_secret secret) x.1)
        (sym (reconcile-loops d c namespace keys secrets lists ∙ e₁ ∙ e₂))
        (Added-In (λ w. Unit {0}) (delete_secret secret) added
          (clean_up_deletes secret before (unwanted_name secret.name unwanted)))

  keys_loop-creates :
      Sends
        (λ w. (secret : Secret) × (w ≡ create_secret secret))
        (keys_loop d c namespace keys secrets)
  keys_loop-creates =
      Sends-for_each _ _ _
        (λ key i. key-Sends d c namespace keys secrets _ key (λ value held. (_, refl)))

  pub approved-mem : (key : ApiKey) → IsWanted d keys key → In key (approved_keys d keys)
  unfolding approved_keys
  approved-mem key (i, a, p) =
      rw
        (
          d.lo.filter_lem (is_approved d.meta) (d.lo.filter is_active keys),
          d.lo.filter_lem is_active keys,
        )
        (keep-mem (is_approved d.meta) key (keep is_active keys) (keep-mem is_active key keys i a)
          p)

  key_fails :
      (key : ApiKey) (e : List Call → Error)
      → ((h : List Call) → desired_enforcement_secret d (c.snapshot h) key namespace ≡ err (e h))
      → (h : List Call) → (reconcile_key d c namespace key h).0 ≡ err (e h)
  unfolding reconcile_key
  key_fails key e fails h = rw (fails h) refl

  loop_stops :
      (u : Error)
      → (keys_loop d c namespace keys secrets []).0 ≡ err u
      → loops d c namespace keys secrets [] ≡ (err u, (keys_loop d c namespace keys secrets []).1)
  loop_stops u p = rw p refl

  -- One listed key that is approved and not being deleted, for which no secret can be computed,
  -- stops the reconcile before it deletes anything: no enforcement secret of another key that was
  -- revoked is deleted.
  pub deletions_blocked :
      (key : ApiKey) (secret : Secret) (e : List Call → Error)
      → Lists d c namespace keys secrets
      → IsWanted d keys key
      → ((h : List Call) → desired_enforcement_secret d (c.snapshot h) key namespace ≡ err (e h))
      → ¬ In (delete_secret secret) (reconcile d c []).1
  deletions_blocked key secret e lists w fails i =
      let (u, p) =
        for_each-fails (reconcile_key d c namespace) (approved_keys d keys) key e
          (approved-mem key w) (key_fails key e fails) [] in
      let (created, q) = Added-new _ (delete_secret secret) (keys_loop-creates []) (
        subst (λ x. In (delete_secret secret) x.1)
          (reconcile-loops d c namespace keys secrets lists ∙ loop_stops u p) i) in
      cc
