-- ===== src/Examples/History.antt =====
-- A history of the operator: a key of a product that approves automatically, until it has its
-- enforcement secret.
use developer_portal_control.Approval.{reconcile_statuses, calculate_valid_condition}
use developer_portal_control.AutoApproval.{reconcile as reconcile_autoapproval}
use developer_portal_control.Client.Run.{for_each}
use developer_portal_control.Helper.{get_kuadrant_namespace, api_key_request_name}
use developer_portal_control.KeyStatus.Conditions.{
  calculate_status_conditions, settle_approved, settle_pending,
}
use developer_portal_control.KeyStatus.Failures.{calculate_failed_condition}
use developer_portal_control.KeyStatus.Reconcile.{
  reconcile as reconcile_keystatus, reconcile_status,
}
use developer_portal_control.KeyStatus.Status.{
  calculate_auth_scheme, calculate_plan_limits, calculate_status, api_host_name,
}
use developer_portal_control.Reconcilers.{is_object_tagged_to_delete, reconcile_resource}
use developer_portal_control.Request.{desired_request, reconcile as reconcile_request}
use developer_portal_control.RequestStatus.{
  reconcile as reconcile_requeststatus, conditions_equal, copy_conditions,
}
use developer_portal_control.Secret.Reconcile.{reconcile as reconcile_secret}
use developer_portal_control.Deps.Reference.{reference_kube}
use developer_portal_control.KeyStatus.Approvals.{
  answers as answers_request, calculate_approved_condition, calculate_denied_condition,
  calculate_pending_condition, find_answer, find_api_key_approval, is_valid_approval,
}
use developer_portal_control.Secret.Desired.{desired_enforcement_secret}
use native.Mathlib.Decide.{ℕ_discrete}
use developer_portal_control.Prelude.{String, List, [], ◌∷◌, map, ◌≡◌, refl, inl, In}
use developer_portal_control.Prelude.Outcome.{ok, err, other}
use developer_portal_control.Api.Object.{ObjectKey, fresh_metadata}
use developer_portal_control.Api.External.{Secret}
use developer_portal_control.Deps.Reference.{reference_deps}
use developer_portal_control.Product.Web.{Web, answered}
use developer_portal_control.Client.{
  Call, create_request, update_request_status, update_key_status, create_approval,
  update_approval_status, create_secret, delete_secret, update_product_status,
}
use developer_portal_control.Cluster.{
  Event, runs, requests, keys, request_statuses, answers, validities, secrets, calls,
}
use developer_portal_control.Examples.Server.{server, server-Remembers}
use developer_portal_control.Cluster.Origins.{RestsOn, secret-RestsOn}
use developer_portal_control.Examples.Orders.{in_order}
use developer_portal_control.Examples.Cluster.{request_name}

abbrev pub web : Web
web = record {
  exchange = λ h url. answered 200 (ok "{}");
  decode = λ body. err (other "EOF");
  ranges = λ h. in_order;
}

abbrev pub asked : ObjectKey
asked = record { namespace = "shop"; name = request_name }

-- Newest first.
abbrev pub events : List Event
events =
    runs secrets 0 170
    ∷ runs keys 0 160
    ∷ runs validities 0 150
    ∷ runs (answers asked) 0 140
    ∷ runs request_statuses 0 130
    ∷ runs keys 0 120
    ∷ runs requests 0 110
    ∷ []

kind : Call → String
kind (create_request r) = "create request"
kind (update_key_status r) = "key status"
kind (update_request_status r) = "request status"
kind (create_approval r) = "create approval"
kind (update_approval_status r) = "approval status"
kind (create_secret r) = "create secret"
kind (delete_secret r) = "delete secret"
kind (update_product_status r) = "product status"
kind _ = "other"

abbrev secret : Secret
secret = record {
  metadata = record (fresh_metadata "devportal-dev-mine-8dee3e06" "kuadrant-system") {
    annotations =
        ("secret.kuadrant.io/expires-at", "2026-01-01T00:00:00Z")
        ∷ ("secret.kuadrant.io/plan-id", "basic")
        ∷ ("secret.kuadrant.io/user-id", "ann")
        ∷ [];
    labels =
        ("devportal.kuadrant.io/enforcement", "true")
        ∷ ("devportal.kuadrant.io/apiproduct", "gold")
        ∷ ("devportal.kuadrant.io/apiproduct-namespace", "shop")
        ∷ ("devportal.kuadrant.io/apikey", "mine")
        ∷ ("devportal.kuadrant.io/apikey-namespace", "dev")
        ∷ ("authorino.kuadrant.io/managed-by", "authorino")
        ∷ ("app", "shop")
        ∷ [];
  };
  type = "Opaque";
  entries = ("api_key", "abc") ∷ [];
}

-- The writes of the pipeline, newest first.
pipeline :
    (map kind (calls reference_deps (λ n. web) 512 server events)
      ≡ "create secret" ∷ "key status" ∷ "approval status" ∷ "create approval" ∷ "request status"
        ∷ "key status" ∷ "create request" ∷ [])
    × In (create_secret secret) (calls reference_deps (λ n. web) 512 server events)
unfolding kind calls ℕ_discrete reconcile_statuses reconcile_autoapproval for_each
    get_kuadrant_namespace calculate_status_conditions calculate_failed_condition
    reconcile_keystatus reconcile_status calculate_auth_scheme calculate_plan_limits
    calculate_status is_object_tagged_to_delete reconcile_resource desired_request reconcile_request
    reconcile_requeststatus reconcile_secret calculate_valid_condition reference_kube
    api_key_request_name answers_request calculate_approved_condition calculate_denied_condition
    calculate_pending_condition find_answer find_api_key_approval is_valid_approval settle_approved
    settle_pending api_host_name conditions_equal copy_conditions desired_enforcement_secret
pipeline = (refl, inl refl)

secret-RestsOn_example : RestsOn reference_deps (λ n. web) 512 server events secret
secret-RestsOn_example =
    secret-RestsOn reference_deps (λ n. web) 512 server server-Remembers events secret pipeline.1
