-- ===== src/KeyStatus/Stability.antt =====
-- A status that was calculated and written is calculated again, and not written again.
use mathlib.Core.Path.{subst}
use developer_portal_control.Prelude.{
  ℕ, String, Bool, true, false, Option, none, some, List, [], ◌∷◌, ◌≡◌, refl, sym, ap, ◌∙◌, ◌==◌,
  eq_iff, eq_refl, if◌then◌else◌, arith, any, All, Option-cases, inl, inr,
}
use developer_portal_control.Prelude.Outcome.{ok, >>=-eq-ok, ok-injective}
use developer_portal_control.Meta.{Condition, Meta, merged}
use developer_portal_control.Meta.Sequence.{merged-merged}
use developer_portal_control.Api.Key.{
  ApiKey, ApiKeyStatus, condition_approved, condition_denied, condition_expired,
}
use developer_portal_control.Api.Approval.{ApiKeyApproval}
use developer_portal_control.Deps.{Deps}
use developer_portal_control.Client.{Snapshot, Client, Call, reordered}
use developer_portal_control.Helper.{api_key_request_name, Context}
use developer_portal_control.KeyStatus.Approvals.{answers, find_answer, find_api_key_approval}
use developer_portal_control.KeyStatus.Reordered.{HasOneScheme, failed_reordered, auth_reordered}
use developer_portal_control.KeyStatus.Failures.{calculate_failed_condition}
use developer_portal_control.Api.External.{Ranges}
use developer_portal_control.KeyStatus.Status.{
  calculate_status, calculate_auth_scheme, calculate_plan_limits, api_host_name,
}
use developer_portal_control.KeyStatus.Reconcile.{reconcile_status}
use developer_portal_control.KeyStatus.Conditions.{
  but_failed, but_denied, but_expired, but_approved, but_pending, has_expired, expired_condition,
  settle_failed, settle_pending, settle_expired, settle_approved, settle_denied, remove_all,
  decide_failed, calculate_status_conditions,
}
use developer_portal_control.KeyStatus.Phase.{find-remove_all}
use developer_portal_control.KeyStatus.Decision.{
  failed-IsFailure, IsFailure, decide_reviewed, decide_unreviewed,
}

module _ (meta : Meta) where
  remove_all_stable :
      (cs : List Condition) (ts : List String)
      → All (λ t. meta.find cs t ≡ none) ts
      → remove_all meta cs ts ≡ cs
  unfolding remove_all
  remove_all_stable cs [] h = refl
  remove_all_stable cs (t ∷ ts) (h, hs) =
      rw (meta.remove_stable cs t h) (remove_all_stable cs ts hs)

  none_after :
      (now : ℕ) (cs : List Condition) (c : Condition) (us ts : List String)
      → any (λ u. u == c.type) us ≡ false
      → All (λ t. any (λ u. u == t) ts ≡ true) us
      → All (λ t. meta.find (meta.set now (remove_all meta cs ts) c) t ≡ none) us
  none_after now cs c [] ts h m = tt
  none_after now cs c (u ∷ us) ts h (m, ms) = (
    ground (
      arith,
      meta.find-set now (remove_all meta cs ts) c u,
      find-remove_all meta cs ts u,
      eq_iff u c.type,
      eq_iff c.type u,
    ),
    none_after now cs c us ts (ground arith) ms,
  )

  settle_stable :
      (now later : ℕ) (cs : List Condition) (c : Condition) (ts : List String)
      → any (λ u. u == c.type) ts ≡ false
      → All (λ t. any (λ u. u == t) ts ≡ true) ts
      → let new = meta.set now (remove_all meta cs ts) c in
        meta.set later (remove_all meta new ts) c ≡ new
  settle_stable now later cs c ts h m =
      rw (remove_all_stable _ ts (none_after now cs c ts ts h m)) (
        meta.set_stable later _ c (
          subst (λ x. x ≡ some (merged later x c)) (sym found_again)
            (ap some (sym (merged-merged now later _ c)))))
    where
      found_again :
          meta.find (meta.set now (remove_all meta cs ts) c) c.type
          ≡ some (merged now (meta.find (remove_all meta cs ts) c.type) c)
      found_again = rw (meta.find-set now (remove_all meta cs ts) c c.type, eq_refl c.type) refl

-- The key with another status.
abbrev pub with_status : ApiKey → ApiKeyStatus → ApiKey
with_status key status = record key { status = status }

module _ (d : Deps) (ctx : Context) (key : ApiKey) (status : ApiKeyStatus) where
  find_answer-with_status :
      (items : List ApiKeyApproval)
      → find_answer d ctx (with_status key status) items ≡ find_answer d ctx key items
  unfolding find_answer answers api_key_request_name
  find_answer-with_status [] = refl
  find_answer-with_status (a ∷ items) = ground (arith, find_answer-with_status items)

  find_approval-with_status :
      find_api_key_approval d ctx (with_status key status) ≡ find_api_key_approval d ctx key
  unfolding find_api_key_approval
  find_approval-with_status = find_answer-with_status _

  decide-with_status :
      (now : ℕ) (cs : List Condition) (f : Option Condition)
      → decide_failed d ctx (with_status key status) now cs f ≡ decide_failed d ctx key now cs f
  unfolding decide_failed expired_condition
  decide-with_status now cs (some c) = refl
  decide-with_status now cs none = elim (Option-cases (find_api_key_approval d ctx key)) [
    | inl e ↦ rw (
      decide_unreviewed d key now cs ctx e,
      decide_unreviewed d (with_status key status) now cs ctx (find_approval-with_status ∙ e),
    )
    | inr (a, e) ↦ rw (
      decide_reviewed d key now cs ctx a e,
      decide_reviewed d (with_status key status) now cs ctx a (find_approval-with_status ∙ e),
    )
  ]

  failed-with_status :
      (s : Snapshot)
      → calculate_failed_condition d s (with_status key status) ≡ calculate_failed_condition d s key
  unfolding calculate_failed_condition
  failed-with_status s = ground arith

module _ (d : Deps) (ctx : Context) (key : ApiKey) (now later : ℕ) (cs : List Condition) where
  reviewed_stable :
      (b x : Bool) (c₁ c₂ c₃ : Condition)
      → c₁.type ≡ condition_expired
      → c₂.type ≡ condition_approved
      → c₃.type ≡ condition_denied
      → let pick = λ (t : ℕ) (cs : List Condition).
        if b
        then (if x then settle_expired d t cs c₁ else settle_approved d t cs c₂)
        else settle_denied d t cs c₃ in
        pick later (pick now cs) ≡ pick now cs
  unfolding settle_expired settle_approved settle_denied
  reviewed_stable true true c₁ c₂ c₃ h₁ h₂ h₃ =
      settle_stable d.meta now later cs c₁ but_expired (rw h₁) (refl, (refl, (refl, (refl, tt))))
  reviewed_stable true false c₁ c₂ c₃ h₁ h₂ h₃ =
      settle_stable d.meta now later cs c₂ but_approved (rw h₂) (refl, (refl, (refl, (refl, tt))))
  reviewed_stable false x c₁ c₂ c₃ h₁ h₂ h₃ =
      settle_stable d.meta now later cs c₃ but_denied (rw h₃) (refl, (refl, (refl, (refl, tt))))

  decide_stable :
      (f : Option Condition)
      → IsFailure f
      → has_expired key later ≡ has_expired key now
      → let new = decide_failed d ctx key now cs f in decide_failed d ctx key later new f ≡ new
  unfolding decide_failed settle_failed settle_pending expired_condition
  decide_stable (some c) h e =
      settle_stable d.meta now later cs c but_failed (rw h.0) (refl, (refl, (refl, (refl, tt))))
  decide_stable none h e = elim (Option-cases (find_api_key_approval d ctx key)) [
    | inl p ↦
        rw (decide_unreviewed d key now cs ctx p, decide_unreviewed d key later _ ctx p)
          (settle_stable d.meta now later cs _ but_pending refl (refl, (refl, (refl, (refl, tt)))))
    | inr (a, p) ↦
        rw (decide_reviewed d key now cs ctx a p, decide_reviewed d key later _ ctx a p, e)
          (reviewed_stable a.spec.approved (has_expired key now) _ _ _ refl refl refl)
  ]

module _ (d : Deps) (s : Snapshot) (ctx : Context) (key : ApiKey) (now later : ℕ) (o : Ranges) where
  -- The conditions that were written are calculated again, at any later time at which the key is
  -- still on the same side of its expiry.
  conditions_stable :
      (status : ApiKeyStatus)
      → calculate_status_conditions d s ctx key now ≡ ok status.conditions
      → has_expired key later ≡ has_expired key now
      → calculate_status_conditions d (reordered s o) ctx (with_status key status) later
        ≡ ok status.conditions
  unfolding calculate_status_conditions
  conditions_stable status h e =
      let (f, checked, r) = >>=-eq-ok (calculate_failed_condition d s key) _ h in
      rw (failed-with_status d ctx key status (reordered s o), failed_reordered d s o key, checked)
        (ap ok (
          decide-with_status d ctx key status later status.conditions f
          ∙ subst (λ x. decide_failed d ctx key later x f ≡ x) (ok-injective r)
              (decide_stable d ctx key now later key.status.conditions f
                (failed-IsFailure d s key f checked) e)))

  status_parts :
      (status : ApiKeyStatus)
      → calculate_status d s ctx key now ≡ ok status
      → (calculate_status_conditions d s ctx key now ≡ ok status.conditions)
        × (calculate_auth_scheme d s key ≡ ok status.auth_scheme)
        × (calculate_plan_limits s key ≡ ok status.limits)
        × (api_host_name s key ≡ ok status.api_hostname)
        × (status.observed_generation ≡ key.generation)
  unfolding calculate_status
  status_parts status h = ground arith

  -- As long as what the reconcile reads stays the same, but for the order in which maps are visited, and
  -- the key stays on the same side of its expiry, a key with the status that was calculated for it gets
  -- the same status again.
  pub status_stable :
      (status : ApiKeyStatus)
      → calculate_status d s ctx key now ≡ ok status
      → has_expired key later ≡ has_expired key now
      → HasOneScheme d s key
      → calculate_status d (reordered s o) ctx (with_status key status) later ≡ ok status
  unfolding calculate_status calculate_plan_limits api_host_name
  status_stable status h e one =
      let (a, b, p, q, g) = status_parts status h in
      let auth : calculate_auth_scheme d (reordered s o) (with_status key status)
          ≡ ok status.auth_scheme =
        auth_reordered d s o (with_status key status) one ∙ (same status ∙ b) in
      ground (arith, conditions_stable status a e, a, auth, p, q, g)
    where
      same :
          (status : ApiKeyStatus)
          → calculate_auth_scheme d s (with_status key status) ≡ calculate_auth_scheme d s key
      same status = unfold calculate_auth_scheme in refl

module _ (d : Deps) (c : Client) (ctx : Context) (key : ApiKey) (now later : ℕ) where
  -- A key whose calculated status has been written is not written again: a reconcile that reads
  -- the same, in whatever order its ranges visit the entries of maps, and finds the key on the same
  -- side of its expiry sends nothing, provided that all methods of the product's discovered scheme
  -- that take an API key agree in their API-key specification and in their credentials.
  pub reconcile_status_settles :
      (status : ApiKeyStatus) (before after : List Call) (o : Ranges)
      → calculate_status d (c.snapshot before) ctx key now ≡ ok status
      → c.snapshot after ≡ reordered (c.snapshot before) o
      → has_expired key later ≡ has_expired key now
      → HasOneScheme d (c.snapshot before) key
      → reconcile_status d c ctx later (with_status key status) after ≡ (ok tt, after)
  unfolding reconcile_status
  reconcile_status_settles status before after o h e x one =
      rw (e, status_stable d (c.snapshot before) ctx key now later o status h x one)
        (ground (
          arith,
          (d.kube.equal_key_status_iff status status).1 refl,
          (status_parts d (c.snapshot before) ctx key now later o status h).4,
        ))
