-- ===== src/Cluster/Rest/Consistency.antt =====
-- What the operator works towards: the cluster that all controllers leave alone.
use developer_portal_control.Prelude.{ℕ, String, none, List, [], ◌≡◌, In}
use developer_portal_control.Prelude.Outcome.{ok}
use developer_portal_control.Api.Object.{ObjectKey, key_of}
use developer_portal_control.Api.External.{Secret, PlanPolicy, AuthPolicy}
use developer_portal_control.Api.Key.{ApiKey}
use developer_portal_control.Api.Request.{ApiKeyRequest, client_object}
use developer_portal_control.Api.Approval.{ApiKeyApproval}
use developer_portal_control.Api.Product.{ApiProduct}
use developer_portal_control.Deps.{Deps}
use developer_portal_control.Client.{Client}
use developer_portal_control.Helper.{
  background, with_api_keys, with_api_key_requests, with_api_key_approvals,
}
use developer_portal_control.Product.Web.{Web}
use developer_portal_control.Product.Status.{calculate_status as calculate_product}
use developer_portal_control.Product.Reconcile.{
  with_plan_policies, with_auth_policies, reconcile as reconcile_products,
}
use developer_portal_control.KeyStatus.Status.{calculate_status as calculate_key}
use developer_portal_control.KeyStatus.Reconcile.{reconcile as reconcile_keys}
use developer_portal_control.Secret.Desired.{enforcement_secret_name}
use developer_portal_control.Secret.Reconcile.{reconcile as reconcile_secrets}
use developer_portal_control.Secret.Safety.{IsWanted, Lists}
use developer_portal_control.Request.{reconcile as reconcile_requests}
use developer_portal_control.Request.Due.{IsRetired}
use developer_portal_control.RequestStatus.{reconcile as reconcile_request_statuses}
use developer_portal_control.RequestStatus.Agreement.{Matches}
use developer_portal_control.Approval.Validity.{HasDistinctKeys, RefersTo}
use developer_portal_control.Approval.{
  calculate_status as calculate_validity, reconcile_owners, reconcile_statuses,
}
use developer_portal_control.AutoApproval.{reconcile as reconcile_answer}
use developer_portal_control.AutoApproval.Guards.{IsPending}
use developer_portal_control.Cluster.Still.{IsStill}
use developer_portal_control.Cluster.Rest.Requests.{HasRequest, HasNoRequest}
use developer_portal_control.Cluster.Rest.Secrets.{HasSecret}

-- The cluster as its lists show it.
pub record Listing (d : Deps) (c : Client) : Type 0 where
  pub keys : List ApiKey
  pub requests : List ApiKeyRequest
  pub approvals : List ApiKeyApproval
  pub products : List ApiProduct
  pub plans : List PlanPolicy
  pub policies : List AuthPolicy
  pub namespace : String
  pub secrets : List Secret
  pub keys_listed : (c.snapshot []).list_keys ≡ ok keys
  pub requests_listed : (c.snapshot []).list_requests ≡ ok requests
  pub approvals_listed : (c.snapshot []).list_approvals ≡ ok approvals
  pub products_listed : (c.snapshot []).list_products ≡ ok products
  pub plans_listed : (c.snapshot []).list_plan_policies ≡ ok plans
  pub policies_listed : (c.snapshot []).list_auth_policies ≡ ok policies
  pub secrets_listed : Lists d c namespace keys secrets
  -- No two requests have one namespace and name.
  pub requests_distinct : HasDistinctKeys requests

module _ (d : Deps) (web : Web) (max_size : ℕ) (c : Client) (now : ℕ) where
  -- Each controller succeeds, asks for no retry and writes nothing.
  pub record IsAtRest : Type 0 where
    pub products_still : IsStill (reconcile_products d c web now max_size)
    pub keys_still : IsStill (reconcile_keys d c now)
    pub secrets_still : IsStill (reconcile_secrets d c)
    pub requests_still : IsStill (reconcile_requests d c)
    pub request_statuses_still : IsStill (reconcile_request_statuses c)
    pub owners_still : IsStill (reconcile_owners d c)
    pub validities_still : IsStill (reconcile_statuses d c now)
    pub answers_still : (req : ObjectKey) → IsStill (reconcile_answer d c now req)

  -- Every object is as the others call for.
  pub record IsConsistent (l : Listing d c) : Type 0 where
    pub product_current :
        (p : ApiProduct)
        → In p l.products
        → p.deletion_timestamp ≡ none
        → (calculate_product d web now max_size []
              (c.snapshot [])
              (with_auth_policies (with_plan_policies background l.plans) l.policies)
              p
            ≡ ok p.status)
          × (p.generation ≡ p.status.observed_generation)
    pub key_current :
        (key : ApiKey)
        → In key l.keys
        → key.deletion_timestamp ≡ none
        → (calculate_key d
              (c.snapshot [])
              (with_api_key_approvals
                (with_api_key_requests (with_api_keys background l.keys) l.requests)
                l.approvals)
              key
              now
            ≡ ok key.status)
          × (key.generation ≡ key.status.observed_generation)
    pub approval_current :
        (a : ApiKeyApproval)
        → In a l.approvals
        → a.deletion_timestamp ≡ none
        → (calculate_validity d now (with_api_key_requests background l.requests) a ≡ a.status)
          × (a.generation ≡ a.status.observed_generation)
    pub approval_owned :
        (a : ApiKeyApproval) (r : ApiKeyRequest)
        → In a l.approvals
        → a.deletion_timestamp ≡ none
        → In r l.requests
        → RefersTo a r
        → r.deletion_timestamp ≡ none
        → In r.uid a.owner_references
    pub request_kept : (key : ApiKey) → In key l.keys → ¬ IsRetired d key → HasRequest d c key
    pub request_gone : (key : ApiKey) → In key l.keys → IsRetired d key → HasNoRequest d c key
    pub request_claimed :
        (r : ApiKeyRequest)
        → In r l.requests
        → (key : ApiKey) × In key l.keys × (key_of key.metadata ≡ client_object r.spec.api_key_ref)
    pub conditions_copied :
        (r : ApiKeyRequest) (key : ApiKey)
        → In r l.requests
        → (c.snapshot []).get_key (client_object r.spec.api_key_ref) ≡ ok key
        → key.deletion_timestamp ≡ none
        → Matches key.status.conditions r.status.conditions
    pub request_answered :
        (req : ObjectKey) (r : ApiKeyRequest) (p : ApiProduct) (as' : List ApiKeyApproval)
        → IsPending d c now req r
        → (c.snapshot []).get_product
            (record { namespace = r.namespace; name = r.spec.api_product_ref })
          ≡ ok p
        → p.deletion_timestamp ≡ none
        → p.spec.approval_mode ≡ "automatic"
        → (c.snapshot []).list_approvals_in r.namespace ≡ ok as'
        → (a : ApiKeyApproval) × In a as' × (a.spec.api_key_request_ref ≡ r.name)
    pub secret_kept :
        (key : ApiKey) → IsWanted d l.keys key → HasSecret d c l.namespace l.keys l.secrets key
    pub secret_valid :
        (s : Secret)
        → In s l.secrets
        → (key : ApiKey) × IsWanted d l.keys key × (enforcement_secret_name d.texts key ≡ s.name)
