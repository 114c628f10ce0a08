-- ===== src/KeyStatus/Approvals.antt =====
-- findAPIKeyApproval, and the conditions that follow from the approval.
use developer_portal_control.Prelude.{
  String, Bool, not, ◌&&◌, Option, none, some, List, [], ◌∷◌, ◌==◌, if◌then◌else◌, ◌+++◌,
}
use developer_portal_control.Meta.{Condition, yes_true}
use developer_portal_control.Api.Key.{
  ApiKey, api_product_key, holds, condition_denied, condition_approved, condition_pending,
}
use developer_portal_control.Api.Approval.{ApiKeyApproval, condition_valid}
use developer_portal_control.Deps.{Deps}
use developer_portal_control.Helper.{Context, items_or_empty, api_key_request_name}

-- A condition with status True of the key's generation.
abbrev pub true_condition : ApiKey → String → String → String → Condition
true_condition key type reason message = record {
  type = type;
  status = yes_true;
  observed_generation = key.generation;
  last_transition_time = none;
  reason = reason;
  message = message;
}

module _ (d : Deps) (ctx : Context) where
  unfoldable pub is_valid_approval : ApiKeyApproval → Bool
  is_valid_approval a = holds (d.meta.find a.status.conditions condition_valid)

  unfoldable pub answers : ApiKey → ApiKeyApproval → Bool
  answers key a =
      a.namespace == (api_product_key key).namespace
      && a.spec.api_key_request_ref == api_key_request_name d.texts key

  -- The loop over `validApprovals`.
  unfoldable pub find_answer : ApiKey → List ApiKeyApproval → Option ApiKeyApproval
  find_answer key [] = none
  find_answer key (a ∷ rest) = if answers key a then some a else find_answer key rest

  unfoldable pub find_api_key_approval : ApiKey → Option ApiKeyApproval
  find_api_key_approval key =
      find_answer key (d.lo.filter is_valid_approval (items_or_empty ctx.api_key_approvals))

  unfoldable pub review_message : String → ApiKeyApproval → String
  review_message verb a =
      let message = "API key request " +++ verb +++ " by " +++ a.spec.reviewed_by in
      if a.spec.message == "" then message else message +++ ": " +++ a.spec.message

  unfoldable pub calculate_denied_condition : ApiKey → Option Condition
  calculate_denied_condition key = elim (find_api_key_approval key) [
    | none ↦ none
    | some a ↦
        if not a.spec.approved
        then some (true_condition key condition_denied "Denied" (review_message "denied" a))
        else none
  ]

  unfoldable pub calculate_approved_condition : ApiKey → Option Condition
  calculate_approved_condition key = elim (find_api_key_approval key) [
    | none ↦ none
    | some a ↦
        if a.spec.approved
        then some (true_condition key condition_approved "Approved" (review_message "approved" a))
        else none
  ]

  unfoldable pub calculate_pending_condition : ApiKey → Option Condition
  calculate_pending_condition key = elim (find_api_key_approval key) [
    | none ↦ some (
        true_condition key condition_pending "AwaitingApproval"
          "API key request is awaiting approval")
    | some a ↦ none
  ]
