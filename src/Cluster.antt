-- ===== src/Cluster.antt =====
-- The controllers of internal/controller together, as cmd/main.go starts them: they run one after
-- another in any order, each against what the API server shows it then, among the writes of people.
pub mod Runs
pub mod Promises
pub mod Approvals
pub mod Origins
pub mod Still
pub mod Rest
use developer_portal_control.Prelude.{ℕ, List, [], ◌∷◌, ◌++◌}
use developer_portal_control.Api.Object.{ObjectKey}
use developer_portal_control.Api.Approval.{ApiKeyApproval}
use developer_portal_control.Deps.{Deps}
use developer_portal_control.Product.Web.{Web}
use developer_portal_control.Client.{Client, Call, create_approval, update_approval}
use developer_portal_control.Product.Reconcile.{reconcile as reconcile_products}
use developer_portal_control.KeyStatus.Reconcile.{reconcile as reconcile_keys}
use developer_portal_control.Secret.Reconcile.{reconcile as reconcile_secrets}
use developer_portal_control.Request.{reconcile as reconcile_requests}
use developer_portal_control.RequestStatus.{reconcile as reconcile_request_statuses}
use developer_portal_control.Approval.{reconcile_owners, reconcile_statuses}
use developer_portal_control.AutoApproval.{reconcile as reconcile_answer}
use developer_portal_control.Access.{
  Rule, product_rules, request_rules, key_status_rules, secret_rules, approval_status_rules,
  request_status_rules, auto_approval_rules, approval_rules,
}

-- The reconcilers that the manager starts; that of the automatic approvals works on one request.
pub data Controller : Type 0 where
  products keys secrets requests request_statuses owners validities : Controller
  answers : ObjectKey → Controller

abbrev pub rules_of : Controller → List Rule
rules_of products = product_rules
rules_of keys = key_status_rules
rules_of secrets = secret_rules
rules_of requests = request_rules
rules_of request_statuses = request_status_rules
rules_of owners = approval_rules
rules_of validities = approval_status_rules
rules_of (answers req) = auto_approval_rules

-- A person creates or changes an approval, or a controller runs at a time against the state number n.
-- What people do to other objects shows in the states.
pub data Event : Type 0 where
  creates changes : ApiKeyApproval → Event
  runs : Controller → ℕ → ℕ → Event

module _ (d : Deps) (web : Web) (max_size : ℕ) where
  -- The writes of one run, newest first.
  unfoldable pub writes : Controller → Client → ℕ → List Call
  writes products c now = (reconcile_products d c web now max_size []).1
  writes keys c now = (reconcile_keys d c now []).1
  writes secrets c now = (reconcile_secrets d c []).1
  writes requests c now = (reconcile_requests d c []).1
  writes request_statuses c now = (reconcile_request_statuses c []).1
  writes owners c now = (reconcile_owners d c []).1
  writes validities c now = (reconcile_statuses d c now []).1
  writes (answers req) c now = (reconcile_answer d c now req []).1

module _ (d : Deps) (web : ℕ → Web) (max_size : ℕ) where
  -- All writes that the events make, newest first. `server n h` is the client of a run in the state
  -- number n, after the writes h, and `web n` is the web that it meets.
  unfoldable pub calls : (ℕ → List Call → Client) → List Event → List Call
  unfolding writes
  calls server [] = []
  calls server (creates a ∷ events) = create_approval a ∷ calls server events
  calls server (changes a ∷ events) = update_approval a ∷ calls server events
  calls server (runs controller n now ∷ events) =
      let h = calls server events in writes d (web n) max_size controller (server n h) now ++ h
