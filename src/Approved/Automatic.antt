-- ===== src/Approved/Automatic.antt =====
-- apikey_auto_approval_controller.go, apikeyapproval_status_controller.go, apikeyrequest_controller.go
-- and apikey_status_controller.go together: from the automatic approval to the approved key.
use developer_portal_control.Prelude.{
  ℕ, true, false, none, some, List, [], ◌∷◌, ◌≡◌, refl, ap, inl, inr, arith, In, Bool-cases,
  keep-mem, eq_iff,
}
use developer_portal_control.Prelude.Outcome.{ok}
use developer_portal_control.Meta.{Condition}
use developer_portal_control.Api.Key.{ApiKey, holds, condition_approved}
use developer_portal_control.Api.Request.{ApiKeyRequest}
use developer_portal_control.Api.Approval.{ApiKeyApproval}
use developer_portal_control.Deps.{Deps}
use developer_portal_control.Client.{Snapshot}
use developer_portal_control.Helper.{Context, items_or_empty, api_key_request_name}
use developer_portal_control.AutoApproval.{auto_approval}
use developer_portal_control.Approval.Validity.{HasDistinctKeys, written, status-valid_iff}
use developer_portal_control.KeyStatus.Approvals.{
  is_valid_approval, answers, find_answer, find_api_key_approval,
}
use developer_portal_control.KeyStatus.Failures.{calculate_failed_condition}
use developer_portal_control.KeyStatus.Conditions.{
  calculate_status_conditions, decide_failed, has_expired,
}
use developer_portal_control.KeyStatus.Decision.{decide-ShowsOnly}
use developer_portal_control.Request.{built_request}
use developer_portal_control.Approved.{IsAnswer, found-IsAnswer}

module _ (d : Deps) (ctx : Context) (key : ApiKey) where
  -- Where an approval in the list answers the key, one is found.
  answer_found :
      (items : List ApiKeyApproval) (a : ApiKeyApproval)
      → In a items
      → answers d ctx key a ≡ true
      → (b : ApiKeyApproval) × (find_answer d ctx key items ≡ some b)
  unfolding find_answer
  answer_found [] a i t = absurd i
  answer_found (x ∷ items) a i t = elim (Bool-cases (answers d ctx key x)) [
    | inl e ↦ (x, rw e refl)
    | inr e ↦ rw e (elim i [
      | inl p ↦ absurd (ground (arith, ap (answers d ctx key) p))
      | inr j ↦ answer_found items a j t
    ])
  ]

  IsAnswer-found :
      (a : ApiKeyApproval)
      → IsAnswer d ctx key a
      → (b : ApiKeyApproval) × (find_api_key_approval d ctx key ≡ some b)
  unfolding find_api_key_approval is_valid_approval answers built_request
  IsAnswer-found a (i, v, n, r) =
      answer_found (d.lo.filter (is_valid_approval d ctx) (items_or_empty ctx.api_key_approvals)) a
        (rw (d.lo.filter_lem (is_valid_approval d ctx) (items_or_empty ctx.api_key_approvals))
          (keep-mem (is_valid_approval d ctx) a (items_or_empty ctx.api_key_approvals) i v))
        (ground (
          arith,
          eq_iff a.namespace (built_request d key).namespace,
          eq_iff a.spec.api_key_request_ref (api_key_request_name d.texts key),
        ))

module _ (d : Deps) (reviewing answering : Context) (key : ApiKey) (request : ApiKeyRequest)
    (t then_time : ℕ) where
  -- The automatic approval of the request, with the status that is calculated for it.
  abbrev automatic : ApiKeyApproval
  automatic = written d reviewing (auto_approval t request) then_time then_time

  automatic-IsAnswer :
      request.namespace ≡ (built_request d key).namespace
      → request.name ≡ (built_request d key).name
      → In request (items_or_empty reviewing.api_key_requests)
      → request.deletion_timestamp ≡ none
      → HasDistinctKeys (items_or_empty reviewing.api_key_requests)
      → In automatic (items_or_empty answering.api_key_approvals)
      → IsAnswer d answering key automatic
  automatic-IsAnswer n m i u distinct j = (
    j,
    (status-valid_iff d then_time reviewing (auto_approval t request) distinct).1
        (request, i, (refl, refl), u),
    n,
    m,
  )

  -- An automatic approval is enough. Take the approval that is created for the request of a key, with
  -- the status that is calculated for it where that request is listed and is not being deleted. Where
  -- this approval is listed, no valid approval of that request denies, what the key refers to has
  -- no failure, and the key has not expired, the status of the key is calculated, and has Approved
  -- with status True.
  pub automatic-approved :
      (s : Snapshot) (now : ℕ)
      → request.namespace ≡ (built_request d key).namespace
      → request.name ≡ (built_request d key).name
      → In request (items_or_empty reviewing.api_key_requests)
      → request.deletion_timestamp ≡ none
      → HasDistinctKeys (items_or_empty reviewing.api_key_requests)
      → In automatic (items_or_empty answering.api_key_approvals)
      → ((b : ApiKeyApproval) → IsAnswer d answering key b → b.spec.approved ≡ true)
      → calculate_failed_condition d s key ≡ ok none
      → has_expired key now ≡ false
      → (cs : List Condition) × (calculate_status_conditions d s answering key now ≡ ok cs)
        × (holds (d.meta.find cs condition_approved) ≡ true)
  unfolding calculate_status_conditions
  automatic-approved s now n m i u distinct j all f x =
      let (b, e) =
        IsAnswer-found d answering key automatic (automatic-IsAnswer n m i u distinct j) in
      let shows = decide-ShowsOnly d key now key.status.conditions answering none (some b) tt e in
      (
        decide_failed d answering key now key.status.conditions none,
        rw f refl,
        (rw (all b (found-IsAnswer d answering key b e), x) at shows).shown,
      )
