-- ===== src/Examples/Keys.antt =====
-- The status of a key, at concrete inputs.
use developer_portal_control.Prelude.{
  String, true, Option, none, some, [], ◌∷◌, ◌≡◌, refl, sym, ap, ◌∙◌, ◌↔◌, false, keep, inl, inr,
  In,
}
use developer_portal_control.Prelude.Outcome.{ok, ok-injective}
use developer_portal_control.Meta.{Condition}
use developer_portal_control.Api.Key.{ApiKeyStatus}
use developer_portal_control.Deps.Reference.{reference_deps, reference_kube}
use developer_portal_control.Meta.Reference.{reference_meta}
use developer_portal_control.Client.Run.{Requeue}
use developer_portal_control.Client.{Call, Client, reordered, update_key_status}
use developer_portal_control.KeyStatus.Writes.{IsNewStatus, writes-IsNewStatus}
use developer_portal_control.Helper.{
  Context, background, with_api_keys, with_api_key_requests, with_api_key_approvals,
  get_kuadrant_namespace, api_key_request_name,
}
use developer_portal_control.KeyStatus.Approvals.{
  find_api_key_approval, calculate_denied_condition, find_answer, is_valid_approval, answers,
  calculate_approved_condition, review_message,
}
use developer_portal_control.KeyStatus.Failures.{calculate_failed_condition}
use developer_portal_control.KeyStatus.Conditions.{
  calculate_status_conditions, settle_approved, settle_expired, expired_condition,
}
use developer_portal_control.KeyStatus.Phase.{phase_of, ShowsOnly}
use developer_portal_control.KeyStatus.Decision.{conditions-ShowsOnly}
use developer_portal_control.KeyStatus.Status.{
  calculate_status, calculate_auth_scheme, calculate_plan_limits, api_host_name,
}
use developer_portal_control.KeyStatus.Reconcile.{
  reconcile_status, reconcile, is_active, track_expiry,
}
use developer_portal_control.KeyStatus.Serviceable.{IsServiceable, failed-none_iff}
use developer_portal_control.KeyStatus.Stability.{with_status, reconcile_status_settles}
use developer_portal_control.KeyStatus.Reordered.{HasOneScheme}
use developer_portal_control.Examples.Orders.{out_of_order}
use mathlib.Core.Option.{some-injective}
use mathlib.Core.Path.{subst}
use developer_portal_control.Api.External.{AuthenticationSpec, AuthSchemeSpec}
use developer_portal_control.Api.Product.{ApiProduct}
use developer_portal_control.KeyStatus.Expiry.{IsEarliest, reconcile-IsEarliest}
use developer_portal_control.Api.Approval.{ApiKeyApproval}
use developer_portal_control.KeyStatus.Conditions.{has_expired}
use developer_portal_control.Approved.{IsAnswer, approved-IsAnswer}
use developer_portal_control.Examples.Cluster.{
  cluster, client_of, context, request, approval, pending_key, approved_condition, condition_of,
  product, scheme, method,
}

approves :
    calculate_status_conditions reference_deps cluster context pending_key 100
    ≡ ok (approved_condition ∷ [])
unfolding calculate_status_conditions calculate_failed_condition get_kuadrant_namespace
    reference_kube calculate_denied_condition find_api_key_approval find_answer is_valid_approval
    answers api_key_request_name calculate_approved_condition settle_approved review_message
approves = refl

conditions-ShowsOnly_example :
    (f : Option Condition) × (calculate_failed_condition reference_deps cluster pending_key ≡ ok f)
    × ShowsOnly reference_meta
        (phase_of f (find_api_key_approval reference_deps context pending_key) pending_key 100)
        pending_key.status.conditions
        (approved_condition ∷ [])
conditions-ShowsOnly_example =
    conditions-ShowsOnly reference_deps cluster context pending_key 100 (approved_condition ∷ [])
      approves

-- The condition that follows from the expiry.
abbrev expired_now : Condition
expired_now =
    record (condition_of "Expired" "KeyExpired" "API key expired at 2026-01-01T00:00:00Z") {
      last_transition_time = some 500;
    }

-- At its expiry the key expires.
expires :
    calculate_status_conditions reference_deps cluster context pending_key 500
    ≡ ok (expired_now ∷ [])
unfolding calculate_status_conditions calculate_failed_condition get_kuadrant_namespace
    reference_kube calculate_denied_condition find_api_key_approval find_answer is_valid_approval
    answers api_key_request_name calculate_approved_condition settle_expired expired_condition
expires = refl

failed-none_iff_example :
    (calculate_failed_condition reference_deps cluster pending_key ≡ ok none)
    ↔ IsServiceable reference_deps cluster pending_key
failed-none_iff_example = failed-none_iff reference_deps cluster pending_key

abbrev new_status : ApiKeyStatus
new_status = record {
  observed_generation = 1;
  api_hostname = "";
  limits = none;
  auth_scheme = some (record {
    authentication_spec = some (record { selector = some (("app", "shop") ∷ []); rest = "" });
    credentials = some "";
  });
  conditions = approved_condition ∷ [];
}

calculated : calculate_status reference_deps cluster context pending_key 100 ≡ ok new_status
unfolding calculate_status calculate_auth_scheme calculate_plan_limits api_host_name
    calculate_status_conditions calculate_failed_condition get_kuadrant_namespace reference_kube
    calculate_denied_condition find_api_key_approval find_answer is_valid_approval answers
    api_key_request_name calculate_approved_condition settle_approved review_message
calculated = refl

-- After a write, the ranges have another order.
abbrev turning_client : Client
turning_client = record {
  snapshot = λ h. elim h [ [] ↦ cluster | w ∷ g ↦ reordered cluster out_of_order ];
  answer = λ h w. ok tt;
}

abbrev settled_write : Call
settled_write = update_key_status (with_status pending_key new_status)

agreed : HasOneScheme reference_deps cluster pending_key
agreed p x v w e f (a, i, t, m) (b, j, u, n) =
    let q : product ≡ p = ok-injective e in
    let same : scheme ≡ x =
      some-injective _ _ (ap (λ (z : ApiProduct). z.status.discovered_auth_scheme) q ∙ f) in
    let only = λ (z : String × AuthenticationSpec) (k : In z x.authentication).
      the_method z (subst (λ (s : AuthSchemeSpec). In z s.authentication) (sym same) k) in
    let same_method : v ≡ w =
      sym m ∙ (ap (λ (z : String × AuthenticationSpec). z.1) (sym (only a i) ∙ only b j) ∙ n) in
    (
      ap (λ (z : AuthenticationSpec). z.api_key) same_method,
      ap (λ (z : AuthenticationSpec). z.credentials) same_method,
    )
  where
    the_method : (z : String × AuthenticationSpec) → In z scheme.authentication → method ≡ z
    the_method z (inl p) = p
    the_method z (inr k) = absurd k

reconcile_status_settles_example :
    reconcile_status reference_deps turning_client context 200
      (with_status pending_key new_status)
      (settled_write ∷ [])
    ≡ (ok tt, settled_write ∷ [])
reconcile_status_settles_example =
    reconcile_status_settles reference_deps turning_client context pending_key 100 200 new_status []
      (settled_write ∷ []) out_of_order calculated refl refl agreed

abbrev requeued : Requeue
requeued = record { again = false; after = 400 }

asked : (reconcile reference_deps (client_of cluster) 100 []).0 ≡ ok requeued
unfolding reconcile reconcile_status native.Mathlib.Decide.ℕ_discrete track_expiry calculate_status
    calculate_auth_scheme calculate_plan_limits api_host_name calculate_status_conditions
    calculate_failed_condition get_kuadrant_namespace reference_kube calculate_denied_condition
    find_api_key_approval find_answer is_valid_approval answers api_key_request_name
    calculate_approved_condition settle_approved review_message
asked = refl

reconcile-IsEarliest_example : IsEarliest 100 0 (keep is_active (pending_key ∷ [])) 400
reconcile-IsEarliest_example =
    reconcile-IsEarliest reference_deps (client_of cluster) 100 (pending_key ∷ []) requeued refl
      asked refl

approved-IsAnswer_example :
    (a : ApiKeyApproval) × IsAnswer reference_deps context pending_key a
    × (a.spec.approved ≡ true)
    × (has_expired pending_key 100 ≡ false)
approved-IsAnswer_example =
    approved-IsAnswer reference_deps context pending_key cluster 100 (approved_condition ∷ [])
      approves refl

abbrev status_write : Call
status_write = update_key_status (record pending_key { status = new_status })

status_written : In status_write (reconcile reference_deps (client_of cluster) 100 []).1
unfolding reconcile reconcile_status native.Mathlib.Decide.ℕ_discrete track_expiry calculate_status
    calculate_auth_scheme calculate_plan_limits api_host_name calculate_status_conditions
    calculate_failed_condition get_kuadrant_namespace reference_kube calculate_denied_condition
    find_api_key_approval find_answer is_valid_approval answers api_key_request_name
    calculate_approved_condition settle_approved review_message
status_written = inl refl

abbrev listed : Context
listed =
    with_api_key_approvals
      (with_api_key_requests (with_api_keys background (pending_key ∷ [])) (request ∷ []))
      (approval ∷ [])

writes-IsNewStatus_example :
    IsNewStatus reference_deps (client_of cluster) listed 100 (pending_key ∷ []) status_write
writes-IsNewStatus_example =
    writes-IsNewStatus reference_deps (client_of cluster) 100 (pending_key ∷ []) (request ∷ [])
      (approval ∷ []) status_write refl refl refl status_written
