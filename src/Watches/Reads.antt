-- ===== src/Watches/Reads.antt =====
-- What each controller reads, against the kinds that it watches.
use developer_portal_control.Prelude.{ℕ, List, ◌≡◌, refl}
use developer_portal_control.Deps.{Deps}
use developer_portal_control.Client.{Client, Call}
use developer_portal_control.Product.Web.{Web}
use developer_portal_control.Product.Reconcile.{reconcile as reconcile_products}
use developer_portal_control.Product.Status.{
  calculate_status as product_status, ready_condition, plan_policy_discovered_condition,
}
use developer_portal_control.Product.Policies.{find_plan_policy, find_auth_policy}
use developer_portal_control.Request.{reconcile as reconcile_requests}
use developer_portal_control.RequestStatus.{reconcile as reconcile_request_statuses}
use developer_portal_control.Approval.{reconcile_owners, reconcile_statuses}
use developer_portal_control.AutoApproval.{reconcile as reconcile_answer}
use developer_portal_control.Secret.Reconcile.{reconcile as reconcile_secrets}
use developer_portal_control.KeyStatus.Reconcile.{reconcile as reconcile_keys}
use developer_portal_control.Reconcilers.{reconcile_resource}
use developer_portal_control.KeyStatus.Status.{calculate_status as key_status}
use developer_portal_control.Watches.{
  product_setup, approval_setup, approval_status_setup, request_setup, triggers, restricted,
}

module _ (d : Deps) (c : Client) (h : List Call) where
  product-restricted :
      (web : Web) (now max_size : ℕ)
      → reconcile_products d (restricted (triggers product_setup) c) web now max_size h
        ≡ reconcile_products d c web now max_size h
  unfolding reconcile_products product_status ready_condition find_plan_policy find_auth_policy
      plan_policy_discovered_condition
  product-restricted web now max_size = refl

  owners-restricted :
      reconcile_owners d (restricted (triggers approval_setup) c) h ≡ reconcile_owners d c h
  unfolding reconcile_owners
  owners-restricted = refl

  statuses-restricted :
      (now : ℕ)
      → reconcile_statuses d (restricted (triggers approval_status_setup) c) now h
        ≡ reconcile_statuses d c now h
  unfolding reconcile_statuses
  statuses-restricted now = refl

  requests-restricted :
      reconcile_requests d (restricted (triggers request_setup) c) h ≡ reconcile_requests d c h
  unfolding reconcile_requests reconcile_resource
  requests-restricted = refl

  -- Four controllers read no kind but those that they watch. Where every read of any other kind is
  -- refused, the APIProduct, APIKeyRequest, APIKeyApproval and APIKeyApproval status controllers make
  -- the same writes as before, in the same order, and end with the same result.
  pub watched_reads :
      (web : Web) (now max_size : ℕ)
      → (reconcile_products d (restricted (triggers product_setup) c) web now max_size h
          ≡ reconcile_products d c web now max_size h)
        × (reconcile_requests d (restricted (triggers request_setup) c) h
            ≡ reconcile_requests d c h)
        × (reconcile_owners d (restricted (triggers approval_setup) c) h ≡ reconcile_owners d c h)
        × (reconcile_statuses d (restricted (triggers approval_status_setup) c) now h
            ≡ reconcile_statuses d c now h)
  watched_reads web now max_size = (
    product-restricted web now max_size,
    requests-restricted,
    owners-restricted,
    statuses-restricted now,
  )
