-- ===== src/Approved.antt =====
-- internal/controller/apikey_status_controller.go and apikeyrequest_controller.go together: what an
-- approved key rests on.
pub mod Automatic
pub mod RoundTrip
use developer_portal_control.Prelude.{
  ℕ, true, false, Option, none, some, List, [], ◌∷◌, ◌≡◌, ◌≢◌, refl, sym, ap, ◌∙◌, ◌⊎◌, inl, inr,
  arith, In, Bool-cases, mem-keep, eq_iff,
}
use developer_portal_control.Prelude.Outcome.{ok}
use developer_portal_control.Meta.{Condition}
use developer_portal_control.Api.Key.{ApiKey, holds, condition_approved}
use developer_portal_control.Api.Approval.{ApiKeyApproval, condition_valid}
use developer_portal_control.Deps.{Deps}
use developer_portal_control.Client.{Snapshot}
use developer_portal_control.Helper.{Context, items_or_empty, api_key_request_name}
use developer_portal_control.KeyStatus.Approvals.{
  is_valid_approval, answers, find_answer, find_api_key_approval,
}
use developer_portal_control.KeyStatus.Conditions.{calculate_status_conditions, has_expired}
use developer_portal_control.KeyStatus.Phase.{
  Phase, failed, denied, expired, approved, pending, phase_of,
}
use developer_portal_control.KeyStatus.Decision.{conditions-ShowsOnly}
use developer_portal_control.Request.{built_request}

module _ (d : Deps) (ctx : Context) (key : ApiKey) where
  -- A listed approval that has the condition Valid with status True and refers to the request that
  -- is built for the key.
  abbrev pub IsAnswer : ApiKeyApproval → Type 0
  IsAnswer a =
      In a (items_or_empty ctx.api_key_approvals)
      × (holds (d.meta.find a.status.conditions condition_valid) ≡ true)
      × (a.namespace ≡ (built_request d key).namespace)
      × (a.spec.api_key_request_ref ≡ (built_request d key).name)

  answered :
      (items : List ApiKeyApproval) (a : ApiKeyApproval)
      → find_answer d ctx key items ≡ some a
      → In a items × (answers d ctx key a ≡ true)
  unfolding find_answer
  answered [] a e = cc
  answered (x ∷ items) a e = elim (Bool-cases (answers d ctx key x)) [
    | inl t ↦ let p : x ≡ a = ground arith in (inl p, ap (answers d ctx key) (sym p) ∙ t)
    | inr f ↦ let (i, t) = answered items a (ground arith) in (inr i, t)
  ]

  pub found-IsAnswer : (a : ApiKeyApproval) → find_api_key_approval d ctx key ≡ some a → IsAnswer a
  unfolding find_api_key_approval is_valid_approval answers built_request
  found-IsAnswer a e =
      let (i, t) =
        answered (d.lo.filter (is_valid_approval d ctx) (items_or_empty ctx.api_key_approvals)) a
          e in
      let (j, v) = mem-keep (is_valid_approval d ctx) a (items_or_empty ctx.api_key_approvals) (
        rw (d.lo.filter_lem (is_valid_approval d ctx) (items_or_empty ctx.api_key_approvals)) at
          i) in
      (
        j,
        v,
        ground (arith, eq_iff a.namespace (built_request d key).namespace),
        ground (arith, eq_iff a.spec.api_key_request_ref (api_key_request_name d.texts key)),
      )

  approved_phase :
      (f : Option Condition) (o : Option ApiKeyApproval) (now : ℕ)
      → phase_of f o key now ≡ approved
      → (a : ApiKeyApproval) × (o ≡ some a)
        × (a.spec.approved ≡ true)
        × (has_expired key now ≡ false)
  approved_phase (some c) o now e = cc
  approved_phase none none now e = cc
  approved_phase none (some a) now e = (a, refl, ground arith, ground arith)

  approved_or_not : (p : Phase) → (p ≡ approved) ⊎ (approved ≢ p)
  approved_or_not approved = inl refl
  approved_or_not failed = inr (λ e. cc)
  approved_or_not denied = inr (λ e. cc)
  approved_or_not expired = inr (λ e. cc)
  approved_or_not pending = inr (λ e. cc)

  -- If the calculated conditions of a key have Approved with status True, then the key has not
  -- expired, and there is a listed approval that approves, has the condition Valid with status True,
  -- and refers by namespace and name to the request that is built for this key.
  pub approved-IsAnswer :
      (s : Snapshot) (now : ℕ) (cs : List Condition)
      → calculate_status_conditions d s ctx key now ≡ ok cs
      → holds (d.meta.find cs condition_approved) ≡ true
      → (a : ApiKeyApproval) × IsAnswer a × (a.spec.approved ≡ true) × (has_expired key now ≡ false)
  approved-IsAnswer s now cs e h =
      let (f, checked, shows) = conditions-ShowsOnly d s ctx key now cs e in
      elim (approved_or_not (phase_of f (find_api_key_approval d ctx key) key now)) [
        | inl p ↦
            let (a, q, t, x) = approved_phase f (find_api_key_approval d ctx key) now p in
            (a, found-IsAnswer a q, t, x)
        | inr n ↦ absurd (ground (arith, shows.alone approved n))
      ]
