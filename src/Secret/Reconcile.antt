-- ===== src/Secret/Reconcile.antt =====
-- Reconcile of the enforcement secrets: those of approved keys are created, all others deleted.
use developer_portal_control.Prelude.{String, Bool, List, ◌==◌, if◌then◌else◌, any}
use developer_portal_control.Prelude.Outcome.{Error, is_not_found}
use developer_portal_control.Api.External.{Secret}
use developer_portal_control.Api.Key.{ApiKey, is_approved}
use developer_portal_control.Deps.{Deps}
use developer_portal_control.Client.{Client, create_secret, update_secret, delete_secret}
use developer_portal_control.Client.Run.{
  Run, Requeue, no_requeue, query, perform, done, fail, catch, for_each, ◌>>=◌, ◌>>◌,
}
use developer_portal_control.Helper.{get_kuadrant_namespace}
use developer_portal_control.Reconcilers.{Kind, reconcile_resource, create_only_mutator}
use developer_portal_control.KeyStatus.Reconcile.{is_active}
use developer_portal_control.Secret.Desired.{
  enforcement_secret_label, enforcement_secret_name, desired_enforcement_secret,
}

abbrev pub secret_kind : Kind Secret
secret_kind = record {
  metadata = λ s. s.metadata;
  with_annotations = λ s a. record s { metadata = record (s.metadata) { annotations = a } };
  get = λ s. s.get_secret;
  create = create_secret;
  update = update_secret;
  delete = delete_secret;
}

-- A deletion that finds nothing is no failure.
abbrev pub unless_not_found : Error → Run (Unit {0})
unless_not_found e = if is_not_found e then done tt else fail e

module _ (d : Deps) where
  unfoldable pub approved_keys : List ApiKey → List ApiKey
  approved_keys keys = d.lo.filter (is_approved d.meta) (d.lo.filter is_active keys)

  -- `validEnforcementSecretKeys[name]`, after the loop over the keys.
  unfoldable pub is_valid_name : List ApiKey → String → Bool
  is_valid_name approved name = any (λ key. enforcement_secret_name d.texts key == name) approved

module _ (d : Deps) (c : Client) where
  unfoldable pub reconcile_key : String → ApiKey → Run (Unit {0})
  reconcile_key namespace key = do
    secret ← query c (λ s. desired_enforcement_secret d s key namespace)
    reconcile_resource secret_kind c secret create_only_mutator

  unfoldable pub clean_up : List ApiKey → Secret → Run (Unit {0})
  unfolding is_valid_name
  clean_up approved secret =
      if is_valid_name d approved secret.name
      then done tt
      else catch (perform c (delete_secret secret)) unless_not_found done

  unfoldable pub reconcile_in : String → Run Requeue
  unfolding reconcile_key clean_up approved_keys
  reconcile_in namespace = do
    secrets ← query c (λ s. s.list_secrets namespace enforcement_secret_label "true")
    keys ← query c (λ s. s.list_keys)
    let approved = approved_keys d keys
    for_each (reconcile_key namespace) approved
    for_each (clean_up approved) secrets
    done no_requeue

  unfoldable pub reconcile : Run Requeue
  unfolding reconcile_in
  reconcile = do
    namespace ← query c get_kuadrant_namespace
    if namespace == "" then done no_requeue else reconcile_in namespace
