-- ===== src/Approval.antt =====
-- internal/controller/apikeyapproval_controller.go and apikeyapproval_status_controller.go: the
-- owner of an APIKeyApproval, and whether it is valid.
pub mod Validity
pub mod Ownership
pub mod Writes
use developer_portal_control.Prelude.{
  ℕ, String, Bool, true, false, ◌&&◌, Option, none, some, List, [], ◌∷◌, ◌==◌, if◌then◌else◌, any,
  is_some, is_none, nat_eq, ◌+++◌,
}
use developer_portal_control.Prelude.Outcome.{Error, Result, ok, err}
use developer_portal_control.Meta.{Condition, Status, yes_true, no_false}
use developer_portal_control.Api.Object.{ObjectMeta}
use developer_portal_control.Api.Request.{ApiKeyRequest}
use developer_portal_control.Api.Approval.{ApiKeyApproval, ApiKeyApprovalStatus, condition_valid}
use developer_portal_control.Deps.{Deps}
use developer_portal_control.Client.{Client, update_approval, update_approval_status}
use developer_portal_control.Client.Run.{
  Run, Requeue, query, perform, done, fail, for_each, finish, ◌>>=◌, ◌>>◌,
}
use developer_portal_control.Helper.{Context, background, with_api_key_requests, items_or_empty}

-- The loop that both reconcilers have: the request that an approval refers to, in its namespace.
unfoldable pub find_request : ApiKeyApproval → List ApiKeyRequest → Option ApiKeyRequest
find_request approval [] = none
find_request approval (r ∷ rs) =
    if r.namespace == approval.namespace && r.name == approval.spec.api_key_request_ref
    then some r
    else find_request approval rs

abbrev pub is_active_approval : ApiKeyApproval → Bool
is_active_approval a = is_none a.deletion_timestamp

-- The loop of a reconcile, left by the first error; a conflict asks for a retry.
abbrev pub conclude : Run (Unit {0}) → Run Requeue
conclude m h = (finish (m h).0, (m h).1)

module _ (d : Deps) (c : Client) where
  unfoldable pub set_owner : ApiKeyApproval → ApiKeyRequest → Run (Unit {0})
  set_owner approval request =
      if any (λ uid. uid == request.uid) approval.owner_references then done tt else (λ h.
        elim (d.kube.set_controller_reference request.metadata approval.metadata) [
          | err e ↦ (err e, h)
          | ok owned ↦ perform c (update_approval (record approval { metadata = owned })) h
        ])

  unfoldable pub reconcile_found : ApiKeyApproval → Option ApiKeyRequest → Run (Unit {0})
  unfolding set_owner
  reconcile_found approval none = done tt
  reconcile_found approval (some request) =
      if is_some request.deletion_timestamp then done tt else set_owner approval request

  unfoldable pub reconcile_owner_reference : Context → ApiKeyApproval → Run (Unit {0})
  unfolding reconcile_found find_request
  reconcile_owner_reference ctx approval =
      reconcile_found approval (find_request approval (items_or_empty ctx.api_key_requests))

  unfoldable pub reconcile_owners : Run Requeue
  unfolding reconcile_owner_reference
  reconcile_owners = do
    approvals ← query c (λ s. s.list_approvals)
    requests ← query c (λ s. s.list_requests)
    conclude (
        for_each (reconcile_owner_reference (with_api_key_requests background requests))
          (d.lo.filter is_active_approval approvals))

abbrev pub valid_condition : ApiKeyApproval → Status → String → String → Condition
valid_condition approval status reason message = record {
  type = condition_valid;
  status = status;
  observed_generation = approval.generation;
  last_transition_time = none;
  reason = reason;
  message = message;
}

abbrev pub request_text : ApiKeyApproval → String
request_text a = a.namespace +++ "/" +++ a.spec.api_key_request_ref

-- calculateValidCondition, by the request that was found.
unfoldable pub validity_of : ApiKeyApproval → Option ApiKeyRequest → Condition
validity_of approval none =
    valid_condition approval no_false "APIKeyRequestNotFound"
      ("Referenced APIKeyRequest " +++ request_text approval +++ " not found")
validity_of approval (some request) =
    if is_some request.deletion_timestamp
    then valid_condition approval no_false "APIKeyRequestDeleting"
        ("Referenced APIKeyRequest " +++ request_text approval +++ " is being deleted")
    else valid_condition approval yes_true "Valid"
        ("References existing APIKeyRequest " +++ request_text approval)

unfoldable pub calculate_valid_condition : Context → ApiKeyApproval → Condition
unfolding validity_of find_request
calculate_valid_condition ctx approval =
    validity_of approval (find_request approval (items_or_empty ctx.api_key_requests))

module _ (d : Deps) (now : ℕ) where
  unfoldable pub calculate_status : Context → ApiKeyApproval → ApiKeyApprovalStatus
  calculate_status ctx approval = record {
    observed_generation = approval.generation;
    conditions = d.meta.set now approval.status.conditions (calculate_valid_condition ctx approval);
  }

module _ (d : Deps) (c : Client) (now : ℕ) where
  unfoldable pub reconcile_status : Context → ApiKeyApproval → Run (Unit {0})
  unfolding calculate_status
  reconcile_status ctx approval =
      if d.kube.equal_approval_status (calculate_status d now ctx approval) approval.status
        && nat_eq approval.generation approval.status.observed_generation
      then done tt
      else perform c (
          update_approval_status (record approval { status = calculate_status d now ctx approval }))

  unfoldable pub reconcile_statuses : Run Requeue
  unfolding reconcile_status
  reconcile_statuses = do
    approvals ← query c (λ s. s.list_approvals)
    requests ← query c (λ s. s.list_requests)
    conclude (
        for_each (reconcile_status (with_api_key_requests background requests))
          (d.lo.filter is_active_approval approvals))
