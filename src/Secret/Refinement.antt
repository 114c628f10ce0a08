-- ===== src/Secret/Refinement.antt =====
-- The reconcile of the enforcement secrets against its abstract view: a set of names.
use mathlib.Core.Path.{subst}
use developer_portal_control.Prelude.{
  String, Bool, true, false, ◌||◌, ◌&&◌, not, List, [], ◌∷◌, ◌≡◌, refl, ap, ◌∙◌, inl, inr, ◌==◌,
  if◌then◌else◌, any, In,
}
use developer_portal_control.Prelude.Outcome.{ok}
use developer_portal_control.Api.External.{Secret}
use developer_portal_control.Api.Key.{ApiKey}
use developer_portal_control.Deps.{Deps}
use developer_portal_control.Client.{Client, Call}
use developer_portal_control.Client.Run.{for_each, Requeue, done, no_requeue, ◌>>◌, bind-eq-ok}
use developer_portal_control.Client.Sends.{for_each_next}
use developer_portal_control.Secret.Desired.{enforcement_secret_name}
use developer_portal_control.Secret.Reconcile.{
  reconcile, reconcile_key, clean_up, approved_keys, is_valid_name,
}
use developer_portal_control.Secret.Safety.{Lists, keys_loop, secrets_loop, reconcile-loops}
use developer_portal_control.Secret.Store.{SecretStore, exists_secret, key_adds, clean_up_removes}

-- The names after a reconcile: those that are wanted, and of the others those that were there and are
-- not listed as enforcement secrets.
abbrev pub synced : Bool → Bool → Bool → Bool
synced wanted listed before = if wanted then true else before && not listed

or_first : (a b x : Bool) → (b || (a || x)) ≡ ((a || b) || x)
or_first true true x = refl
or_first true false x = refl
or_first false true x = refl
or_first false false x = refl

either_removes :
    (a b v x : Bool)
    → (if a && v then false else (if b && v then false else x))
      ≡ (if (b || a) && v then false else x)
either_removes true true true x = refl
either_removes true true false x = refl
either_removes true false true x = refl
either_removes true false false x = refl
either_removes false true true x = refl
either_removes false true false x = refl
either_removes false false true x = refl
either_removes false false false x = refl

synced-eq :
    (wanted listed before : Bool)
    → (if listed && not wanted then false else (wanted || before)) ≡ synced wanted listed before
synced-eq true true before = refl
synced-eq true false before = refl
synced-eq false true true = refl
synced-eq false true false = refl
synced-eq false false true = refl
synced-eq false false false = refl

module _ (d : Deps) (c : Client) (namespace : String) (store : SecretStore c namespace) where
  keys_add :
      (keys : List ApiKey) (h : List Call) (name : String)
      → (for_each (reconcile_key d c namespace) keys h).0 ≡ ok tt
      → exists_secret c namespace (for_each (reconcile_key d c namespace) keys h).1 name
        ≡ (is_valid_name d keys name || exists_secret c namespace h name)
  unfolding is_valid_name for_each
  keys_add [] h name e = refl
  keys_add (key ∷ keys) h name e =
      let (p, q, next) = for_each_next (reconcile_key d c namespace) key keys h e in
      ap (λ r. exists_secret c namespace r.1 name) next
      ∙ (keys_add keys (reconcile_key d c namespace key h).1 name q
          ∙ (ap (λ b. is_valid_name d keys name || b) (key_adds d c namespace store key h p name)
              ∙ or_first (enforcement_secret_name d.texts key == name) (is_valid_name d keys name)
                  (exists_secret c namespace h name)))

  secrets_remove :
      (approved : List ApiKey) (secrets : List Secret) (h : List Call) (name : String)
      → ((s : Secret) → In s secrets → s.namespace ≡ namespace)
      → (for_each (clean_up d c approved) secrets h).0 ≡ ok tt
      → exists_secret c namespace (for_each (clean_up d c approved) secrets h).1 name ≡ (
          if any (λ (s : Secret). s.name == name) secrets && not (is_valid_name d approved name)
          then false
          else exists_secret c namespace h name)
  unfolding for_each
  secrets_remove approved [] h name all e = refl
  secrets_remove approved (s ∷ secrets) h name all e =
      let (p, q, next) = for_each_next (clean_up d c approved) s secrets h e in
      ap (λ r. exists_secret c namespace r.1 name) next
      ∙ (secrets_remove approved secrets (clean_up d c approved s h).1 name (λ t i. all t (inr i)) q
          ∙ (ap
                (λ b.
                  if any (λ (s : Secret). s.name == name) secrets
                    && not (is_valid_name d approved name)
                  then false
                  else b)
                (clean_up_removes d c namespace store approved s h (all s (inl refl)) p name)
              ∙ either_removes (any (λ (s : Secret). s.name == name) secrets) (s.name == name)
                  (not (is_valid_name d approved name)) (exists_secret c namespace h name)))

  -- Against a store of names, where nobody else writes the secrets of the namespace, a reconcile that
  -- succeeds leaves exactly the names that it should: a secret of a name exists afterwards where the
  -- name is that of the enforcement secret of a listed key that is approved and not being deleted,
  -- or where it existed before and is not listed as an enforcement secret.
  pub reconcile-synced :
      (keys : List ApiKey) (secrets : List Secret) (r : Requeue) (name : String)
      → Lists d c namespace keys secrets
      → ((s : Secret) → In s secrets → s.namespace ≡ namespace)
      → (reconcile d c []).0 ≡ ok r
      → exists_secret c namespace (reconcile d c []).1 name
        ≡ synced
            (is_valid_name d (approved_keys d keys) name)
            (any (λ (s : Secret). s.name == name) secrets)
            (exists_secret c namespace [] name)
  reconcile-synced keys secrets r name lists all h =
      let (u, p, h₁, e₁) =
        bind-eq-ok (keys_loop d c namespace keys secrets)
          (λ x. secrets_loop d c namespace keys secrets >> done no_requeue) []
          (subst (λ x. x.0 ≡ ok r) (reconcile-loops d c namespace keys secrets lists) h) in
      let (v, q, h₂, e₂) =
        bind-eq-ok (secrets_loop d c namespace keys secrets) (λ x. done no_requeue)
          (keys_loop d c namespace keys secrets []).1 h₁ in
      ap (λ x. exists_secret c namespace x.1 name)
        (reconcile-loops d c namespace keys secrets lists ∙ (e₁ ∙ e₂))
      ∙ (secrets_remove (approved_keys d keys) secrets (keys_loop d c namespace keys secrets []).1
            name all q
          ∙ (ap
                (λ b.
                  if any (λ (s : Secret). s.name == name) secrets
                    && not (is_valid_name d (approved_keys d keys) name)
                  then false
                  else b)
                (keys_add (approved_keys d keys) [] name p)
              ∙ synced-eq (is_valid_name d (approved_keys d keys) name)
                  (any (λ (s : Secret). s.name == name) secrets)
                  (exists_secret c namespace [] name)))
