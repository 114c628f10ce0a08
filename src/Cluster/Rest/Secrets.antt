-- ===== src/Cluster/Rest/Secrets.antt =====
-- The controller of the enforcement secrets, when it writes nothing.
use developer_portal_control.Prelude.{
  String, List, [], ◌≡◌, refl, sym, ap, ◌∙◌, inl, inr, In, Bool-cases, ◌==◌, eq_iff, any-some,
}
use developer_portal_control.Prelude.Outcome.{Result, ok, err, Result-cases, is_not_found}
use developer_portal_control.Api.External.{Secret}
use developer_portal_control.Api.Key.{ApiKey}
use developer_portal_control.Deps.{Deps}
use developer_portal_control.Client.{Client, delete_secret}
use developer_portal_control.Client.Run.{done, no_requeue, ◌>>◌}
use developer_portal_control.Client.Sends.{same, Sends-then}
use developer_portal_control.Reconcilers.{reconcile_read, reconcile_resource, create_only_mutator}
use developer_portal_control.Secret.Desired.{
  enforcement_secret, enforcement_secret_name, desired_enforcement_secret,
}
use developer_portal_control.Secret.Computed.{desired_of_read, read-eq-ok, not-tagged}
use developer_portal_control.Secret.Reconcile.{
  secret_kind, reconcile_key, clean_up, approved_keys, is_valid_name, reconcile,
}
use developer_portal_control.Secret.Safety.{
  IsDue, IsWanted, Lists, keys_loop, secrets_loop, secrets_loop-Sends, clean_up-Sends,
  key_step-Sends, reconcile-loops, wanted,
}
use developer_portal_control.Secret.Completion.{approved-mem}
use developer_portal_control.Cluster.Still.{IsStill, for_each-still, then-still, sent-not_still}

module _ (d : Deps) (c : Client) (namespace : String) (keys : List ApiKey)
    (secrets : List Secret) where
  -- The enforcement secret of the key can be read.
  abbrev pub HasSecret : ApiKey → Type 0
  HasSecret key =
      (s : Secret) × ((c.snapshot []).get_secret
          (record { namespace = namespace; name = enforcement_secret_name d.texts key })
        ≡ ok s)

  read_still :
      (key : ApiKey) (value : String) (r : Result Secret)
      → (c.snapshot []).get_secret
          (record { namespace = namespace; name = enforcement_secret_name d.texts key })
        ≡ r
      → reconcile_read secret_kind c
          (enforcement_secret d key namespace value)
          create_only_mutator
          r
          []
        ≡ (ok tt, [])
      → HasSecret key
  unfolding reconcile_read
  read_still key value (ok s) p e = (s, p)
  read_still key value (err x) p e = elim (Bool-cases (is_not_found x)) [
    | inl t ↦ let w = ap (λ z. z.1) (rw (t, not-tagged d key namespace value) at e) in cc
    | inr f ↦ let w = ap (λ z. z.0) (rw f at e) in cc
  ]

  key_still : (key : ApiKey) → reconcile_key d c namespace key [] ≡ (ok tt, []) → HasSecret key
  unfolding reconcile_key reconcile_resource enforcement_secret
  key_still key e =
      elim (Result-cases (desired_enforcement_secret d (c.snapshot []) key namespace)) [
        | inr (x, p) ↦ let g = ap (λ z. z.0) (rw p at e) in cc
        | inl (s, p) ↦
            let (consumer, value, q, l, n, built) =
              read-eq-ok d key namespace _ s
                (desired_of_read d (c.snapshot []) key namespace s p) in
            read_still key value _ refl (rw (p ∙ ap ok built) at e)
      ]

  module _ (lists : Lists d c namespace keys secrets) (still : IsStill (reconcile d c)) where
    loops_still :
        (keys_loop d c namespace keys secrets [] ≡ (ok tt, []))
        × (secrets_loop d c namespace keys secrets [] ≡ (ok tt, []))
    loops_still =
        let (q, e, n) = still in
        let (first, rest) =
          then-still (IsDue d c namespace keys secrets) (keys_loop d c namespace keys secrets)
            (secrets_loop d c namespace keys secrets >> done no_requeue) q
            (Sends-then _ (secrets_loop d c namespace keys secrets) (done no_requeue)
              (secrets_loop-Sends d c namespace keys secrets) (λ h. same))
            (sym (reconcile-loops d c namespace keys secrets lists) ∙ e) in
        (
          first,
          (then-still (IsDue d c namespace keys secrets) (secrets_loop d c namespace keys secrets)
              (done no_requeue) q (λ h. same) rest).0,
        )

    -- If the controller of the enforcement secrets is still, each listed key that is approved and not
    -- being deleted has its secret,
    pub secret_at_rest : (key : ApiKey) → IsWanted d keys key → HasSecret key
    secret_at_rest key w = key_still key (
        for_each-still (IsDue d c namespace keys secrets) (reconcile_key d c namespace)
          (approved_keys d keys) key (λ k j. key_step-Sends d c namespace keys secrets k j)
          loops_still.0 (approved-mem d c namespace keys secrets key w))

    -- and each listed enforcement secret has the name of that of such a key.
    pub valid_at_rest :
        (s : Secret)
        → In s secrets
        → (key : ApiKey) × IsWanted d keys key × (enforcement_secret_name d.texts key ≡ s.name)
    unfolding clean_up is_valid_name
    valid_at_rest s i =
        let step =
          for_each-still (IsDue d c namespace keys secrets) (clean_up d c (approved_keys d keys))
            secrets s (clean_up-Sends d c namespace keys secrets) loops_still.1 i in
        elim (Bool-cases (is_valid_name d (approved_keys d keys) s.name)) [
          | inl t ↦
              let (key, j, e) =
                any-some (λ (key : ApiKey). enforcement_secret_name d.texts key == s.name)
                  (approved_keys d keys) t in
              (
                key,
                wanted d c namespace keys secrets key j,
                (eq_iff (enforcement_secret_name d.texts key) s.name).0 e,
              )
          | inr f ↦ absurd (sent-not_still c (delete_secret s) (rw f at step))
        ]
