-- ===== src/Secret/Computed.antt =====
-- What the desired enforcement secret is, when one can be computed.
use developer_portal_control.Prelude.{
  String, false, Option, none, some, ◌≡◌, refl, ◌≢◌, eq_iff, arith,
}
use developer_portal_control.Prelude.Outcome.{Result, ok, err}
use developer_portal_control.Lo.{lookup}
use developer_portal_control.Api.External.{Secret}
use developer_portal_control.Api.Key.{ApiKey}
use developer_portal_control.Deps.{Deps}
use developer_portal_control.Client.{Snapshot}
use developer_portal_control.Reconcilers.{is_object_tagged_to_delete}
use developer_portal_control.KeyStatus.Failures.{secret_key, api_key_secret_key}
use developer_portal_control.Secret.Desired.{
  enforcement_secret, desired_enforcement_secret, secret_of_read, secret_of_entry,
}
use developer_portal_control.Secret.Reconcile.{secret_kind}

module _ (d : Deps) where
  entry-eq-ok :
      (key : ApiKey) (namespace : String) (o : Option String) (secret : Secret)
      → secret_of_entry d key namespace o ≡ ok secret
      → (value : String) × (o ≡ some value)
        × (value ≢ "")
        × (secret ≡ enforcement_secret d key namespace value)
  unfolding secret_of_entry
  entry-eq-ok key namespace none secret h = absurd (ground arith)
  entry-eq-ok key namespace (some value) secret h =
      (value, refl, ground (arith, eq_iff value ""), ground (arith, eq_iff value ""))

  pub read-eq-ok :
      (key : ApiKey) (namespace : String) (r : Result Secret) (secret : Secret)
      → secret_of_read d key namespace r ≡ ok secret
      → (consumer : Secret) × (value : String) × (r ≡ ok consumer)
        × (lookup api_key_secret_key consumer.entries ≡ some value)
        × (value ≢ "")
        × (secret ≡ enforcement_secret d key namespace value)
  unfolding secret_of_read
  read-eq-ok key namespace (err e) secret h = absurd (ground arith)
  read-eq-ok key namespace (ok consumer) secret h =
      let (value, p, q, r) =
        entry-eq-ok key namespace (lookup api_key_secret_key consumer.entries) secret h in
      (consumer, value, refl, p, q, r)

  pub desired_of_read :
      (s : Snapshot) (key : ApiKey) (namespace : String) (secret : Secret)
      → desired_enforcement_secret d s key namespace ≡ ok secret
      → secret_of_read d key namespace (s.get_secret (secret_key key)) ≡ ok secret
  unfolding desired_enforcement_secret
  desired_of_read s key namespace secret h = ground arith

  pub not-tagged :
      (key : ApiKey) (namespace value : String)
      → is_object_tagged_to_delete secret_kind (enforcement_secret d key namespace value) ≡ false
  unfolding is_object_tagged_to_delete enforcement_secret
  not-tagged key namespace value = ground arith
