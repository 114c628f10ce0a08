-- ===== src/KeyStatus/Decision.antt =====
-- calculateStatusConditions: that the conditions show the phase of the key.
use mathlib.Core.Path.{subst}
use developer_portal_control.Prelude.{
  ℕ, Bool, true, false, Option, none, some, List, ◌≡◌, refl, if◌then◌else◌, arith,
}
use developer_portal_control.Prelude.Outcome.{ok, >>=-eq-ok, ok-injective}
use developer_portal_control.Meta.{Condition, yes_true}
use developer_portal_control.Api.Key.{
  ApiKey, condition_denied, condition_approved, condition_pending, condition_failed,
  condition_expired,
}
use developer_portal_control.Api.Approval.{ApiKeyApproval}
use developer_portal_control.Deps.{Deps}
use developer_portal_control.Client.{Snapshot}
use developer_portal_control.Helper.{Context}
use developer_portal_control.KeyStatus.Approvals.{
  true_condition, review_message, find_api_key_approval, calculate_denied_condition,
  calculate_approved_condition, calculate_pending_condition,
}
use developer_portal_control.KeyStatus.Failures.{calculate_failed_condition}
use developer_portal_control.KeyStatus.Conditions.{
  has_expired, calculate_status_conditions, decide_failed, settle_failed, settle_pending,
  settle_denied, settle_approved, settle_expired, expired_condition,
}
use developer_portal_control.KeyStatus.Phase.{
  failed, denied, expired, approved, pending, phase_of, ShowsOnly, settle-ShowsOnly, other_four,
}

-- A failure has the type and the status of one.
abbrev pub IsFailure : Option Condition → Type 0
IsFailure none = Unit
IsFailure (some c) = (c.type ≡ condition_failed) × (c.status ≡ yes_true)

module _ (d : Deps) where
  pub failed-IsFailure :
      (s : Snapshot) (key : ApiKey) (f : Option Condition)
      → calculate_failed_condition d s key ≡ ok f
      → IsFailure f
  unfolding calculate_failed_condition
  failed-IsFailure s key none h = tt
  failed-IsFailure s key (some c) h = ground arith

  module _ (key : ApiKey) (now : ℕ) (cs : List Condition) where
    pub decide_unreviewed :
        (ctx : Context)
        → find_api_key_approval d ctx key ≡ none
        → decide_failed d ctx key now cs none
          ≡ settle_pending d now cs (
              true_condition key condition_pending "AwaitingApproval"
                "API key request is awaiting approval")
    unfolding decide_failed calculate_denied_condition calculate_approved_condition
        calculate_pending_condition
    decide_unreviewed ctx e = ground arith

    pub decide_reviewed :
        (ctx : Context) (a : ApiKeyApproval)
        → find_api_key_approval d ctx key ≡ some a
        → decide_failed d ctx key now cs none ≡ (
            if a.spec.approved
            then (if has_expired key now
                then settle_expired d now cs (expired_condition d key)
                else settle_approved d now cs (
                    true_condition key condition_approved "Approved"
                      (review_message d ctx "approved" a)))
            else settle_denied d now cs
                (true_condition key condition_denied "Denied" (review_message d ctx "denied" a)))
    unfolding decide_failed calculate_denied_condition calculate_approved_condition
        calculate_pending_condition
    decide_reviewed ctx a e = ground arith

    reviewed-ShowsOnly :
        (approving expiring : Bool) (c₁ c₂ c₃ : Condition)
        → (c₁.type ≡ condition_expired) × (c₁.status ≡ yes_true)
        → (c₂.type ≡ condition_approved) × (c₂.status ≡ yes_true)
        → (c₃.type ≡ condition_denied) × (c₃.status ≡ yes_true)
        → ShowsOnly d.meta
            (if approving then (if expiring then expired else approved) else denied)
            cs
            (if approving
              then (if expiring then settle_expired d now cs c₁ else settle_approved d now cs c₂)
              else settle_denied d now cs c₃)
    unfolding settle_denied settle_approved settle_expired
    reviewed-ShowsOnly true true c₁ c₂ c₃ h₁ h₂ h₃ =
        settle-ShowsOnly d.meta now cs c₁ expired _ h₁.0 h₁.1 other_four.2
    reviewed-ShowsOnly true false c₁ c₂ c₃ h₁ h₂ h₃ =
        settle-ShowsOnly d.meta now cs c₂ approved _ h₂.0 h₂.1 other_four.3
    reviewed-ShowsOnly false expiring c₁ c₂ c₃ h₁ h₂ h₃ =
        settle-ShowsOnly d.meta now cs c₃ denied _ h₃.0 h₃.1 other_four.1

    pub decide-ShowsOnly :
        (ctx : Context) (f : Option Condition) (a : Option ApiKeyApproval)
        → IsFailure f
        → find_api_key_approval d ctx key ≡ a
        → ShowsOnly d.meta (phase_of f a key now) cs (decide_failed d ctx key now cs f)
    unfolding decide_failed settle_failed settle_pending expired_condition
    decide-ShowsOnly ctx (some c) a h e =
        settle-ShowsOnly d.meta now cs c failed _ h.0 h.1 other_four.0
    decide-ShowsOnly ctx none none h e =
        rw (decide_unreviewed ctx e)
          (settle-ShowsOnly d.meta now cs _ pending _ refl refl other_four.4)
    decide-ShowsOnly ctx none (some a) h e = rw (decide_reviewed ctx a e) (
        reviewed-ShowsOnly a.spec.approved (has_expired key now) _ _ _ (refl, refl) (refl, refl)
          (refl, refl))

  -- When the conditions of a key are calculated, they show one phase and no other of the five: the
  -- one that follows from the check of what the key refers to, the approval that was found and the
  -- time. Conditions of any other type stay as they were.
  pub conditions-ShowsOnly :
      (s : Snapshot) (ctx : Context) (key : ApiKey) (now : ℕ) (cs : List Condition)
      → calculate_status_conditions d s ctx key now ≡ ok cs
      → (f : Option Condition) × (calculate_failed_condition d s key ≡ ok f)
        × ShowsOnly d.meta
            (phase_of f (find_api_key_approval d ctx key) key now)
            key.status.conditions
            cs
  unfolding calculate_status_conditions
  conditions-ShowsOnly s ctx key now cs h =
      let (f, checked, e) = >>=-eq-ok (calculate_failed_condition d s key) _ h in
      (
        f,
        checked,
        subst (ShowsOnly d.meta _ key.status.conditions) (ok-injective e) (
            decide-ShowsOnly key now key.status.conditions ctx f _
              (failed-IsFailure s key f checked) refl),
      )
