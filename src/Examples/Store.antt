-- ===== src/Examples/Store.antt =====
-- A store of secrets, and the reconcile of the enforcement secrets against it.
use developer_portal_control.Prelude.{
  String, Bool, ◌||◌, true, false, List, [], ◌∷◌, ◌≡◌, refl, sym, ap, inl, inr, arith, eq_iff, In,
  if◌then◌else◌, any, ◌==◌,
}
use developer_portal_control.Prelude.Outcome.{Result, ok, err, not_found}
use developer_portal_control.Api.Object.{ObjectKey, key_of, same_key}
use developer_portal_control.Api.External.{Secret}
use developer_portal_control.Deps.Reference.{reference_deps}
use developer_portal_control.Helper.{get_kuadrant_namespace}
use developer_portal_control.Client.{Client, Call, create_secret, delete_secret}
use developer_portal_control.Client.Run.{no_requeue, for_each}
use developer_portal_control.Reconcilers.{reconcile_resource, is_object_tagged_to_delete}
use developer_portal_control.Secret.Desired.{desired_enforcement_secret}
use developer_portal_control.Secret.Reconcile.{reconcile, is_valid_name, approved_keys}
use developer_portal_control.Secret.Safety.{Lists}
use developer_portal_control.Secret.Store.{SecretStore, exists_secret, is_ok}
use developer_portal_control.Secret.Refinement.{synced, reconcile-synced}
use developer_portal_control.Examples.Cluster.{
  snapshot_with, pending_key, approved_key, approval, stale_secret, consumer_secret,
}

abbrev at_first : List Secret → ObjectKey → Result Secret
at_first [] k = err not_found
at_first (s ∷ ss) k = if same_key (key_of s.metadata) k then ok s else at_first ss k

-- The secrets after the writes.
abbrev held : List Call → ObjectKey → Result Secret
held [] k = at_first (consumer_secret ∷ stale_secret ∷ []) k
held (create_secret s ∷ h) k = if same_key (key_of s.metadata) k then ok s else held h k
held (delete_secret s ∷ h) k = if same_key (key_of s.metadata) k then err not_found else held h k
held (w ∷ h) k = held h k

-- One key is approved, and the enforcement secret of a key that is gone is there.
abbrev client : Client
client = record {
  snapshot = λ h.
      record (snapshot_with (approved_key ∷ pending_key ∷ []) (approval ∷ []) (stale_secret ∷ [])
        (ok consumer_secret)) { get_secret = held h };
  answer = λ h w. ok tt;
}

same_key-name :
    (s : Secret) (name : String)
    → s.namespace ≡ "kuadrant-system"
    → same_key (key_of s.metadata) (record { namespace = "kuadrant-system"; name = name })
      ≡ (s.name == name)
unfolding same_key
same_key-name s name n = ground (arith, eq_iff s.namespace "kuadrant-system")

kept : (s : Secret) (b : Bool) (r : Result Secret) → is_ok (if b then ok s else r) ≡ (b || is_ok r)
kept s true r = refl
kept s false r = refl

gone :
    (b : Bool) (r : Result Secret)
    → is_ok (if b then err not_found else r) ≡ (if b then false else is_ok r)
gone true r = refl
gone false r = refl

store : SecretStore client "kuadrant-system"
store = record {
  after_create = λ h s n a name. rw (same_key-name s name n) (kept s (s.name == name) _);
  after_delete = λ h s n a name. rw (same_key-name s name n) (gone (s.name == name) _);
}

lists :
    Lists reference_deps client "kuadrant-system"
      (approved_key ∷ pending_key ∷ [])
      (stale_secret ∷ [])
unfolding get_kuadrant_namespace
lists = (refl, (λ e. ground (arith, eq_iff "kuadrant-system" "")), refl, refl)

listed_there : (s : Secret) → In s (stale_secret ∷ []) → s.namespace ≡ "kuadrant-system"
listed_there s (inl e) = sym (ap (λ (t : Secret). t.namespace) e)
listed_there s (inr i) = absurd i

succeeds : (reconcile reference_deps client []).0 ≡ ok no_requeue
unfolding reconcile get_kuadrant_namespace for_each desired_enforcement_secret reconcile_resource
    is_object_tagged_to_delete same_key
succeeds = refl

reconcile-synced_example :
    exists_secret client "kuadrant-system" (reconcile reference_deps client []).1 "stale"
    ≡ synced
        (is_valid_name reference_deps
          (approved_keys reference_deps (approved_key ∷ pending_key ∷ []))
          "stale")
        (any (λ (s : Secret). s.name == "stale") (stale_secret ∷ []))
        (exists_secret client "kuadrant-system" [] "stale")
reconcile-synced_example =
    reconcile-synced reference_deps client "kuadrant-system" store (approved_key ∷ pending_key ∷ [])
      (stale_secret ∷ []) no_requeue "stale" lists listed_there succeeds
