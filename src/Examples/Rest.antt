-- ===== src/Examples/Rest.antt =====
-- The operator at rest, after a history in which a key got its enforcement secret.
use developer_portal_control.Product.Reconcile.{reconcile as reconcile_product}
use developer_portal_control.Product.Status.{calculate_status as calculate_status_product}
use developer_portal_control.AutoApproval.{reconcile as reconcile_autoapproval}
use developer_portal_control.KeyStatus.Reconcile.{reconcile as reconcile_keystatus}
use developer_portal_control.KeyStatus.Status.{calculate_status}
use developer_portal_control.Request.{reconcile as reconcile_request}
use developer_portal_control.RequestStatus.{reconcile as reconcile_requeststatus}
use developer_portal_control.Secret.Reconcile.{reconcile as reconcile_secret}
use developer_portal_control.KeyStatus.Approvals.{answers as answers_request}
use developer_portal_control.Prelude.{List, [], ◌∷◌}
use developer_portal_control.Api.Object.{fresh_metadata}
use developer_portal_control.Deps.Reference.{reference_deps}
use developer_portal_control.Client.{Call}
use developer_portal_control.Cluster.{Event, runs, request_statuses, calls}
use developer_portal_control.Examples.Server.{server}
use developer_portal_control.Examples.Cluster.{request, condition_of, request_name}
use developer_portal_control.Prelude.{ℕ, false, some, List}
use developer_portal_control.Client.{Client}
use developer_portal_control.Api.Request.{ApiKeyRequest}
use developer_portal_control.Client.Run.{Requeue}
use developer_portal_control.Cluster.{products, owners}
use developer_portal_control.Examples.History.{web, events}
use developer_portal_control.KeyStatus.Reconcile.{reconcile as reconcile_keys}
use developer_portal_control.AutoApproval.{reconcile as reconcile_answer}

-- The events until the operator has come to rest, newest first.
abbrev all_events : List Event
all_events = runs request_statuses 0 404 ∷ runs owners 0 403 ∷ runs products 0 401 ∷ events

abbrev client : Client
client = server 0 (calls reference_deps (λ n. web) 512 server all_events)

abbrev still : ℕ → Requeue
still n = record { again = false; after = n }

-- The request has been answered.
abbrev answered_request : ApiKeyRequest
answered_request = record request {
  metadata = fresh_metadata request_name "shop";
  status = record {
    conditions =
        record (condition_of "Approved" "Approved"
          "API key request approved by system: Automatically approved based on APIProduct approval mode") {
            last_transition_time = some 160;
          }
        ∷ [];
  };
}

abbrev history : List Call
history = calls reference_deps (λ n. web) 512 server all_events
