-- ===== src/Request.antt =====
-- internal/controller/apikeyrequest_controller.go: the shadow APIKeyRequest of every APIKey.
pub mod Due
pub mod Writes
pub mod Step
use developer_portal_control.Prelude.{
  Bool, true, false, ◌||◌, List, [], ◌∷◌, ◌==◌, if◌then◌else◌, any, is_some,
}
use developer_portal_control.Prelude.Outcome.{Error, is_not_found}
use developer_portal_control.Api.Object.{ObjectKey, key_of, same_key, fresh_metadata}
use developer_portal_control.Api.Key.{ApiKey, condition_failed, holds}
use developer_portal_control.Api.Request.{ApiKeyRequest, ApiKeyRequestSpec}
use developer_portal_control.Deps.{Deps}
use developer_portal_control.Prelude.Decide.{string_discrete, to_bool}
use developer_portal_control.Client.{Client, create_request, update_request, delete_request}
use developer_portal_control.Client.Run.{
  Run, Requeue, no_requeue, query, perform, done, fail, catch, for_each, ◌>>=◌, ◌>>◌,
}
use developer_portal_control.Helper.{api_key_request_name}
use developer_portal_control.Reconcilers.{
  Kind, MutateFn, mutator, reconcile_resource, tag_object_to_delete,
}
use native.Mathlib.Decide.{ℕ_discrete}

abbrev pub request_kind : Kind ApiKeyRequest
request_kind = record {
  metadata = λ r. r.metadata;
  with_annotations = λ r a. record r { metadata = record (r.metadata) { annotations = a } };
  get = λ s. s.get_request;
  create = create_request;
  update = update_request;
  delete = delete_request;
}

-- reflect.DeepEqual on the spec.
unfoldable pub ApiKeyRequestSpec-discrete : Discrete ApiKeyRequestSpec
ApiKeyRequestSpec-discrete = hlevel (ℕ_discrete, string_discrete)

unfoldable pub equal_spec : ApiKeyRequestSpec → ApiKeyRequestSpec → Bool
equal_spec a b = to_bool (ApiKeyRequestSpec-discrete a b)

unfoldable pub api_key_request_spec_mutator : MutateFn ApiKeyRequest
api_key_request_spec_mutator existing desired =
    if equal_spec existing.spec desired.spec
    then (existing, false)
    else (record existing { spec = desired.spec }, true)

abbrev pub request_spec : ApiKey → ApiKeyRequestSpec
request_spec key = record {
  api_product_ref = key.spec.api_product_ref.name;
  plan_tier = key.spec.plan_tier;
  use_case = key.spec.use_case;
  requested_by = key.spec.requested_by;
  api_key_ref = record { name = key.name; namespace = key.namespace };
  expires_at = key.spec.expires_at;
}

module _ (d : Deps) where
  unfoldable pub is_failed_state : ApiKey → Bool
  is_failed_state key = holds (d.meta.find key.status.conditions condition_failed)

  -- The namespace is that of the product.
  unfoldable pub built_request : ApiKey → ApiKeyRequest
  built_request key = record {
    metadata = fresh_metadata (api_key_request_name d.texts key) (
        if key.spec.api_product_ref.namespace == ""
        then key.namespace
        else key.spec.api_product_ref.namespace);
    spec = request_spec key;
    status = record { conditions = [] };
  }

  unfoldable pub desired_request : ApiKey → ApiKeyRequest
  unfolding is_failed_state built_request
  desired_request key =
      if is_some key.deletion_timestamp || is_failed_state key
      then tag_object_to_delete request_kind (built_request key)
      else built_request key

-- A deletion that finds nothing is no failure.
abbrev pub ignore_not_found : Error → Run (Unit {0})
ignore_not_found e = if is_not_found e then done tt else fail e

-- `currentAPIKeys[key]`, after the loop over the keys.
unfoldable pub is_current : List ApiKey → ObjectKey → Bool
is_current keys k = any (λ key. same_key (key_of key.metadata) k) keys

module _ (d : Deps) (c : Client) where
  unfoldable pub reconcile_key : ApiKey → Run (Unit {0})
  reconcile_key key =
      reconcile_resource request_kind c (desired_request d key)
        (mutator (api_key_request_spec_mutator ∷ []))

  unfoldable pub clean_up : List ApiKey → ApiKeyRequest → Run (Unit {0})
  clean_up keys request =
      if is_current keys (record {
        namespace = request.spec.api_key_ref.namespace;
        name = request.spec.api_key_ref.name;
      })
      then done tt
      else catch (perform c (delete_request request)) ignore_not_found done

  unfoldable pub reconcile : Run Requeue
  unfolding reconcile_key clean_up
  reconcile = do
    keys ← query c (λ s. s.list_keys)
    requests ← query c (λ s. s.list_requests)
    for_each reconcile_key keys
    for_each (clean_up keys) requests
    done no_requeue
