-- ===== src/Secret/Safety.antt =====
-- What the reconcile of the enforcement secrets writes, and what it has written when it returns.
use mathlib.Core.Path.{subst}
use developer_portal_control.Prelude.{
  String, true, false, some, List, [], ◌∷◌, ◌≡◌, refl, ap, ◌∙◌, ◌≢◌, ◌⊎◌, inl, inr, eq_iff,
  eq-false, arith, In, keep, Bool-cases, mem-keep, keep-mem, any-true,
}
use developer_portal_control.Prelude.Outcome.{Result, ok, err, Result-cases, is_not_found}
use developer_portal_control.Lo.{lookup}
use developer_portal_control.Api.External.{Secret}
use developer_portal_control.Api.Key.{ApiKey, is_approved}
use developer_portal_control.Deps.{Deps}
use developer_portal_control.Client.{Client, Call, create_secret, delete_secret}
use developer_portal_control.Client.Run.{
  Run, ◌>>◌, Requeue, for_each, done, no_requeue, perform, catch,
}
use developer_portal_control.Client.Sends.{
  Added, same, more, Sends, Sends-then, Sends-for_each, Added-new,
}
use developer_portal_control.Reconcilers.{
  reconcile_resource, create_only_mutator, is_object_tagged_to_delete, reconcile_read,
}
use developer_portal_control.KeyStatus.Failures.{secret_key, api_key_secret_key}
use developer_portal_control.KeyStatus.Reconcile.{is_active}
use developer_portal_control.Helper.{get_kuadrant_namespace}
use developer_portal_control.Secret.Desired.{
  enforcement_secret, enforcement_secret_name, desired_enforcement_secret, enforcement_secret_label,
}
use developer_portal_control.Secret.Reconcile.{
  secret_kind, reconcile, reconcile_in, reconcile_key, clean_up, approved_keys, is_valid_name,
  unless_not_found,
}
use developer_portal_control.Secret.Computed.{read-eq-ok, desired_of_read, not-tagged}

-- A listed key that is approved and not being deleted.
abbrev pub IsWanted : Deps → List ApiKey → ApiKey → Type 0
IsWanted d keys key = In key keys × (is_active key ≡ true) × (is_approved d.meta key ≡ true)

-- At some point of the reconcile, the secret that the key names held this value.
abbrev pub WasHeld : Client → ApiKey → String → Type 0
WasHeld c key value =
    (before : List Call) × (consumer : Secret) × ((c.snapshot before).get_secret (secret_key key)
      ≡ ok consumer)
    × (lookup api_key_secret_key consumer.entries ≡ some value)
    × (value ≢ "")

module _ (d : Deps) (c : Client) (namespace : String) (keys : List ApiKey)
    (secrets : List Secret) where
  abbrev pub IsCreation : Call → Type 0
  IsCreation w =
      (key : ApiKey) × (value : String) × IsWanted d keys key
      × WasHeld c key value
      × ((enforcement_secret d key namespace value).entries ≡ ("api_key", value) ∷ [])
      × (w ≡ create_secret (enforcement_secret d key namespace value))

  abbrev pub IsRemoval : Call → Type 0
  IsRemoval w =
      (secret : Secret) × In secret secrets
      × ((key : ApiKey) → IsWanted d keys key → enforcement_secret_name d.texts key ≢ secret.name)
      × (w ≡ delete_secret secret)

  abbrev pub IsDue : Call → Type 0
  IsDue w = IsCreation w ⊎ IsRemoval w

module _ (d : Deps) (c : Client) (namespace : String) (keys : List ApiKey)
    (secrets : List Secret) where
  read-Sends :
      (P : Call → Type 0) (secret : Secret) (r : Result Secret)
      → is_object_tagged_to_delete secret_kind secret ≡ false
      → P (create_secret secret)
      → Sends P (reconcile_read secret_kind c secret create_only_mutator r)
  unfolding reconcile_read
  read-Sends P secret (ok x) t p h = rw t same
  read-Sends P secret (err e) t p h = elim (Bool-cases (is_not_found e)) [
    | inl q ↦ rw (q, t) (more p same)
    | inr q ↦ rw q same
  ]

  -- For one key, nothing but its own secret is created.
  pub key-Sends :
      (P : Call → Type 0) (key : ApiKey)
      → ((value : String)
          → WasHeld c key value
          → P (create_secret (enforcement_secret d key namespace value)))
      → Sends P (reconcile_key d c namespace key)
  unfolding reconcile_key reconcile_resource enforcement_secret
  key-Sends P key creates h =
      elim (Result-cases (desired_enforcement_secret d (c.snapshot h) key namespace)) [
        | inr (x, e) ↦ rw e same
        | inl (secret, e) ↦ sent secret e
      ]
    where
      sent :
          (secret : Secret)
          → desired_enforcement_secret d (c.snapshot h) key namespace ≡ ok secret
          → Added P h (reconcile_key d c namespace key h).1
      sent secret e =
          let (consumer, value, p, q, n, same_secret) =
            read-eq-ok d key namespace ((c.snapshot h).get_secret (secret_key key)) secret
              (desired_of_read d (c.snapshot h) key namespace secret e) in
          rw (e ∙ ap ok same_secret) (
            read-Sends P (enforcement_secret d key namespace value)
              ((c.snapshot h).get_secret
                (record { namespace = namespace; name = enforcement_secret_name d.texts key }))
              (not-tagged d key namespace value) (creates value (h, consumer, p, q, n)) h)

  pub answer-Sends :
      (P : Call → Type 0) (w : Call) (r : Result (Unit {0})) (h : List Call)
      → P w
      → c.answer h w ≡ r
      → Added P h (catch (perform c w) unless_not_found done h).1
  answer-Sends P w (ok u) h p e = rw (e, catch) (more p same)
  answer-Sends P w (err x) h p e = elim (Bool-cases (is_not_found x)) [
    | inl q ↦ rw (e, catch, q) (more p same)
    | inr q ↦ rw (e, catch, q) (more p same)
  ]

  pub valid_name :
      (key : ApiKey) (name : String)
      → IsWanted d keys key
      → enforcement_secret_name d.texts key ≡ name
      → is_valid_name d (approved_keys d keys) name ≡ true
  unfolding is_valid_name approved_keys
  valid_name key name (i, a, p) e =
      rw
        (
          d.lo.filter_lem (is_approved d.meta) (d.lo.filter is_active keys),
          d.lo.filter_lem is_active keys,
        )
        (any-true _ key _
          (keep-mem (is_approved d.meta) key (keep is_active keys) (keep-mem is_active key keys i a)
            p)
          ((eq_iff _ _).1 e))

  pub clean_up-Sends :
      (secret : Secret)
      → In secret secrets
      → Sends (IsDue d c namespace keys secrets) (clean_up d c (approved_keys d keys) secret)
  unfolding clean_up
  clean_up-Sends secret i h =
      elim (Bool-cases (is_valid_name d (approved_keys d keys) secret.name)) [
        | inl e ↦ rw e same
        | inr e ↦ rw e (
            answer-Sends _ (delete_secret secret) _ h
              (inr (secret, i, (λ key w q. ground (arith, valid_name key secret.name w q)), refl))
              refl)
      ]

  pub wanted : (key : ApiKey) → In key (approved_keys d keys) → IsWanted d keys key
  unfolding approved_keys
  wanted key i =
      let (j, p) = mem-keep (is_approved d.meta) key _ (
        rw
          (
            d.lo.filter_lem (is_approved d.meta) (d.lo.filter is_active keys),
            d.lo.filter_lem is_active keys,
          )
          at i) in
      let (k, a) = mem-keep is_active key keys j in (k, a, p)

  pub key_step-Sends :
      (key : ApiKey)
      → In key (approved_keys d keys)
      → Sends (IsDue d c namespace keys secrets) (reconcile_key d c namespace key)
  unfolding enforcement_secret
  key_step-Sends key i =
      key-Sends _ key (λ value held. inl (key, value, wanted key i, held, refl, refl))

  pub keys_loop-Sends :
      Sends
        (IsDue d c namespace keys secrets)
        (for_each (reconcile_key d c namespace) (approved_keys d keys))
  keys_loop-Sends = Sends-for_each _ _ _ key_step-Sends

  pub secrets_loop-Sends :
      Sends
        (IsDue d c namespace keys secrets)
        (for_each (clean_up d c (approved_keys d keys)) secrets)
  secrets_loop-Sends = Sends-for_each _ _ _ clean_up-Sends

  abbrev pub keys_loop : Run (Unit {0})
  keys_loop = for_each (reconcile_key d c namespace) (approved_keys d keys)

  abbrev pub secrets_loop : Run (Unit {0})
  secrets_loop = for_each (clean_up d c (approved_keys d keys)) secrets

  abbrev pub loops : Run Requeue
  loops = keys_loop >> (secrets_loop >> done no_requeue)

  pub loops-Sends : Sends (IsDue d c namespace keys secrets) loops
  loops-Sends =
      Sends-then _ keys_loop (secrets_loop >> done no_requeue) keys_loop-Sends
        (Sends-then _ secrets_loop (done no_requeue) secrets_loop-Sends (λ h. same))

  -- What the reconcile reads first.
  abbrev pub Lists : Type 0
  Lists =
      (get_kuadrant_namespace (c.snapshot []) ≡ ok namespace)
      × (namespace ≢ "")
      × ((c.snapshot []).list_secrets namespace enforcement_secret_label "true" ≡ ok secrets)
      × ((c.snapshot []).list_keys ≡ ok keys)

  pub reconcile-loops : Lists → reconcile d c [] ≡ loops []
  unfolding reconcile reconcile_in
  reconcile-loops (k, n, s, l) = rw (k, eq-false namespace "" n, s, l) refl

  -- Every write of the reconcile either creates the enforcement secret of a listed key that is
  -- approved and not being deleted, whose only entry is api_key with the value that the key's own
  -- secret held when it was read and which is not empty, or deletes a listed enforcement secret whose
  -- name is that of no such key.
  pub reconcile-IsDue :
      (w : Call) → Lists → In w (reconcile d c []).1 → IsDue d c namespace keys secrets w
  reconcile-IsDue w lists i =
      Added-new (IsDue d c namespace keys secrets) w (loops-Sends [])
        (subst (λ x. In w x.1) (reconcile-loops lists) i)
