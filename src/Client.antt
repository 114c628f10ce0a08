-- ===== src/Client.antt =====
-- The Kubernetes client, as the controllers see it: what reads return, and how writes are answered.
-- The API server is not part of the repository: `Client` is a parameter, and nothing is assumed of
-- it. What it answers depends on the writes that the reconcile has made, so the reads between two
-- writes see one state of the cluster.
pub mod Run
pub mod Sends
use developer_portal_control.Prelude.{ℕ, String, List}
use developer_portal_control.Prelude.Outcome.{Error, Result}
use developer_portal_control.Api.Object.{ObjectKey}
use developer_portal_control.Api.External.{
  Secret, Kuadrant, HttpRoute, AuthPolicy, PlanPolicy, Ranges,
}
use developer_portal_control.Api.Key.{ApiKey}
use developer_portal_control.Api.Request.{ApiKeyRequest}
use developer_portal_control.Api.Approval.{ApiKeyApproval}
use developer_portal_control.Api.Product.{ApiProduct}

-- `r.Get` and `r.List`, for each kind that a controller reads; and, since they may differ from one time
-- to the next, the orders in which the ranges over the maps that were read visit the entries.
pub record Snapshot : Type 0 where
  pub list_keys : Result (List ApiKey)
  pub list_requests : Result (List ApiKeyRequest)
  pub list_approvals : Result (List ApiKeyApproval)
  pub list_products : Result (List ApiProduct)
  pub list_plan_policies : Result (List PlanPolicy)
  pub list_auth_policies : Result (List AuthPolicy)
  pub list_kuadrants : Result (List Kuadrant)
  -- The secrets of a namespace that carry a label with a value.
  pub list_secrets : String → String → String → Result (List Secret)
  -- The approvals of a namespace.
  pub list_approvals_in : String → Result (List ApiKeyApproval)
  pub get_key : ObjectKey → Result ApiKey
  pub get_request : ObjectKey → Result ApiKeyRequest
  pub get_product : ObjectKey → Result ApiProduct
  pub get_route : ObjectKey → Result HttpRoute
  pub get_secret : ObjectKey → Result Secret
  -- The order of the ranges over what was read.
  pub ranges : Ranges

-- What was read, where ranges visit the entries of maps in other orders.
abbrev pub reordered : Snapshot → Ranges → Snapshot
reordered s o = record s { ranges = o }

-- A write that is sent to the API server.
pub data Call : Type 0 where
  create_request update_request delete_request update_request_status : ApiKeyRequest → Call
  update_key_status : ApiKey → Call
  create_approval update_approval update_approval_status : ApiKeyApproval → Call
  create_secret update_secret delete_secret : Secret → Call
  update_product_status : ApiProduct → Call

-- After the writes made so far, newest first: what is read, and how one more write is answered.
pub record Client : Type 0 where
  pub snapshot : List Call → Snapshot
  pub answer : List Call → Call → Result (Unit {0})
