-- ===== src/KeyStatus/Conditions.antt =====
-- calculateStatusConditions: a key is in one of five phases, and carries the condition of that phase.
use developer_portal_control.Prelude.{
  ℕ, String, Bool, not, Option, none, some, List, [], ◌∷◌, if◌then◌else◌, ◌+++◌, ltb,
}
use developer_portal_control.Prelude.Outcome.{Result, ok, ◌>>=◌}
use developer_portal_control.Meta.{Condition, Meta}
use developer_portal_control.Api.Key.{
  ApiKey, condition_denied, condition_approved, condition_pending, condition_failed,
  condition_expired,
}
use developer_portal_control.Deps.{Deps}
use developer_portal_control.Client.{Snapshot}
use developer_portal_control.Helper.{Context}
use developer_portal_control.KeyStatus.Approvals.{
  true_condition, calculate_denied_condition, calculate_approved_condition,
  calculate_pending_condition,
}
use developer_portal_control.KeyStatus.Failures.{calculate_failed_condition}

-- `meta.RemoveStatusCondition` for each type in turn.
unfoldable pub remove_all : Meta → List Condition → List String → List Condition
remove_all meta cs [] = cs
remove_all meta cs (t ∷ ts) = remove_all meta (meta.remove cs t) ts

-- The types that each phase removes, in the order of the calls.
abbrev pub but_failed : List String
but_failed = condition_approved ∷ condition_denied ∷ condition_expired ∷ condition_pending ∷ []

abbrev pub but_denied : List String
but_denied = condition_approved ∷ condition_expired ∷ condition_failed ∷ condition_pending ∷ []

abbrev pub but_expired : List String
but_expired = condition_approved ∷ condition_denied ∷ condition_failed ∷ condition_pending ∷ []

abbrev pub but_approved : List String
but_approved = condition_denied ∷ condition_expired ∷ condition_failed ∷ condition_pending ∷ []

abbrev pub but_pending : List String
but_pending = condition_approved ∷ condition_denied ∷ condition_expired ∷ condition_failed ∷ []

-- `spec.ExpiresAt != nil && !spec.ExpiresAt.After(now)`
abbrev pub has_expired : ApiKey → ℕ → Bool
has_expired key now = elim key.spec.expires_at [ none ↦ Bool.false | some t ↦ not (ltb now t) ]

abbrev pub expiry_text : (ℕ → String) → Option ℕ → String
expiry_text rfc3339 none = ""
expiry_text rfc3339 (some t) = rfc3339 t

module _ (d : Deps) where
  unfoldable pub expired_condition : ApiKey → Condition
  expired_condition key =
      true_condition key condition_expired "KeyExpired"
        ("API key expired at " +++ expiry_text d.texts.rfc3339 key.spec.expires_at)

  -- The condition of the phase takes the place of the other four.
  unfoldable pub settle_failed : ℕ → List Condition → Condition → List Condition
  unfolding remove_all
  settle_failed now cs c = d.meta.set now (remove_all d.meta cs but_failed) c

  unfoldable pub settle_denied : ℕ → List Condition → Condition → List Condition
  unfolding remove_all
  settle_denied now cs c = d.meta.set now (remove_all d.meta cs but_denied) c

  unfoldable pub settle_expired : ℕ → List Condition → Condition → List Condition
  unfolding remove_all
  settle_expired now cs c = d.meta.set now (remove_all d.meta cs but_expired) c

  unfoldable pub settle_approved : ℕ → List Condition → Condition → List Condition
  unfolding remove_all
  settle_approved now cs c = d.meta.set now (remove_all d.meta cs but_approved) c

  unfoldable pub settle_pending : ℕ → List Condition → Condition → List Condition
  unfolding remove_all
  settle_pending now cs c = d.meta.set now (remove_all d.meta cs but_pending) c

  unfoldable pub decide_pending : Context → ApiKey → ℕ → List Condition → List Condition
  decide_pending ctx key now cs = elim (calculate_pending_condition d ctx key) [
    | some c ↦ settle_pending now cs c
    | none ↦ cs
  ]

  unfoldable pub decide_approved : Context → ApiKey → ℕ → List Condition → List Condition
  unfolding decide_pending
  decide_approved ctx key now cs = elim (calculate_approved_condition d ctx key) [
    | some c ↦
        if has_expired key now
        then settle_expired now cs (expired_condition key)
        else settle_approved now cs c
    | none ↦ decide_pending ctx key now cs
  ]

  unfoldable pub decide_denied : Context → ApiKey → ℕ → List Condition → List Condition
  unfolding decide_approved
  decide_denied ctx key now cs = elim (calculate_denied_condition d ctx key) [
    | some c ↦ settle_denied now cs c
    | none ↦ decide_approved ctx key now cs
  ]

  unfoldable pub decide_failed :
      Context → ApiKey → ℕ → List Condition → Option Condition → List Condition
  unfolding decide_denied
  decide_failed ctx key now cs (some c) = settle_failed now cs c
  decide_failed ctx key now cs none = decide_denied ctx key now cs

  unfoldable pub calculate_status_conditions :
      Snapshot → Context → ApiKey → ℕ → Result (List Condition)
  unfolding decide_failed
  calculate_status_conditions s ctx key now = do
    failed ← calculate_failed_condition d s key
    ok (decide_failed ctx key now key.status.conditions failed)
