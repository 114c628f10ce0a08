-- ===== src/AutoApproval.antt =====
-- internal/controller/apikey_auto_approval_controller.go: the approval of a request of a product
-- whose approval mode is automatic.
pub mod Guards
use developer_portal_control.Prelude.{
  ℕ, String, Bool, true, false, not, Option, none, some, List, [], ◌∷◌, ◌==◌, if◌then◌else◌, any,
  is_some, ◌+++◌,
}
use developer_portal_control.Prelude.Outcome.{
  Error, Result, ok, err, is_not_found, is_already_exists,
}
use developer_portal_control.Api.Object.{ObjectKey, fresh_metadata}
use developer_portal_control.Api.Key.{condition_pending, holds}
use developer_portal_control.Api.Request.{ApiKeyRequest}
use developer_portal_control.Api.Approval.{ApiKeyApproval, ApiKeyApprovalSpec}
use developer_portal_control.Api.Product.{ApiProduct}
use developer_portal_control.Deps.{Deps}
use developer_portal_control.Client.{Client, create_approval}
use developer_portal_control.Client.Run.{
  Run, Requeue, no_requeue, query, perform, done, fail, catch, ◌>>=◌, ◌>>◌,
}

-- The approval that is created, reviewed at a time.
abbrev pub auto_approval : ℕ → ApiKeyRequest → ApiKeyApproval
auto_approval now request = record {
  metadata = fresh_metadata (request.name +++ "-auto") request.namespace;
  spec = record {
    api_key_request_ref = request.name;
    approved = true;
    reviewed_by = "system";
    reviewed_at = now;
    reason = "AutoApproved";
    message = "Automatically approved based on APIProduct approval mode";
  };
  status = record { observed_generation = 0; conditions = [] };
}

-- The loop over the approvals of the namespace.
abbrev pub is_answered : ApiKeyRequest → List ApiKeyApproval → Bool
is_answered request approvals = any (λ a. a.spec.api_key_request_ref == request.name) approvals

abbrev pub unless_exists : Error → Run Requeue
unless_exists e = if is_already_exists e then done no_requeue else fail e

module _ (d : Deps) (c : Client) (now : ℕ) where
  unfoldable pub create_unless_answered : ApiKeyRequest → Run Requeue
  create_unless_answered request = do
    approvals ← query c (λ s. s.list_approvals_in request.namespace)
    if is_answered request approvals
        then done no_requeue
        else catch (perform c (create_approval (auto_approval now request))) unless_exists
            (λ u. done no_requeue)

  unfoldable pub with_product : ApiKeyRequest → Result ApiProduct → Run Requeue
  unfolding create_unless_answered
  with_product request (err e) = if is_not_found e then done no_requeue else fail e
  with_product request (ok product) =
      if is_some product.deletion_timestamp
      then done no_requeue
      else if not (product.spec.approval_mode == "automatic")
      then done no_requeue
      else create_unless_answered request

  unfoldable pub with_request : Result ApiKeyRequest → Run Requeue
  unfolding with_product
  with_request (err e) = if is_not_found e then done no_requeue else fail e
  with_request (ok request) =
      if is_some request.deletion_timestamp
      then done no_requeue
      else if not (holds (d.meta.find request.status.conditions condition_pending))
      then done no_requeue
      else (λ h.
          with_product request
            ((c.snapshot h).get_product
              (record { namespace = request.namespace; name = request.spec.api_product_ref }))
            h)

  unfoldable pub reconcile : ObjectKey → Run Requeue
  unfolding with_request
  reconcile req h = with_request ((c.snapshot h).get_request req) h
