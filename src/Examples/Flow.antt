-- ===== src/Examples/Flow.antt =====
-- From the automatic approval of a request to the approved key, at concrete inputs.
use developer_portal_control.Prelude.{true, none, List, [], ◌∷◌, ◌≡◌, refl, sym, ap, ◌∙◌, inl, inr}
use developer_portal_control.Prelude.Outcome.{ok}
use developer_portal_control.Meta.{Condition}
use developer_portal_control.Meta.Reference.{reference_meta}
use developer_portal_control.Api.Key.{api_product_key, holds, condition_approved}
use developer_portal_control.Api.Approval.{ApiKeyApproval}
use developer_portal_control.Deps.Reference.{reference_deps, reference_kube}
use developer_portal_control.Helper.{
  Context, background, with_api_key_requests, with_api_key_approvals, get_kuadrant_namespace,
  api_key_request_name,
}
use developer_portal_control.AutoApproval.{auto_approval, with_request, with_product}
use developer_portal_control.Approval.Validity.{HasDistinctKeys, written}
use developer_portal_control.KeyStatus.Failures.{calculate_failed_condition}
use developer_portal_control.KeyStatus.Conditions.{calculate_status_conditions}
use developer_portal_control.Request.{built_request, clean_up, reconcile_key, is_failed_state}
use developer_portal_control.Request.Due.{IsRetired}
use developer_portal_control.Request.Step.{due_step, read_request, live_key-step}
use developer_portal_control.RequestStatus.{reconcile_request, reconcile_read}
use developer_portal_control.Api.Object.{key_of}
use developer_portal_control.KeyStatus.Approvals.{answers}
use developer_portal_control.Client.{Client}
use developer_portal_control.Approved.RoundTrip.{request-leads_back}
use developer_portal_control.Approved.{IsAnswer}
use developer_portal_control.Approved.Automatic.{automatic-approved}
use developer_portal_control.Examples.Cluster.{cluster, client_of, pending_key, request}

abbrev client : Client
client = client_of cluster

abbrev reviewing : Context
reviewing = with_api_key_requests background (request ∷ [])

abbrev created : ApiKeyApproval
created = written reference_deps reviewing (auto_approval 90 request) 95 95

abbrev answering : Context
answering = with_api_key_approvals background (created ∷ [])

alone : HasDistinctKeys (request ∷ [])
alone r q (inl e) (inl f) a b = sym e ∙ f
alone r q (inr i) j a b = absurd i
alone r q i (inr j) a b = absurd j

all_approve :
    (b : ApiKeyApproval) → IsAnswer reference_deps answering pending_key b → b.spec.approved ≡ true
all_approve b (inl e, v, n, r) = sym (ap (λ (a : ApiKeyApproval). a.spec.approved) e)
all_approve b (inr i, v, n, r) = absurd i

no_failure : calculate_failed_condition reference_deps cluster pending_key ≡ ok none
unfolding calculate_failed_condition get_kuadrant_namespace reference_kube
no_failure = refl

same_namespace : request.namespace ≡ (built_request reference_deps pending_key).namespace
unfolding built_request
same_namespace = refl

same_name : request.name ≡ (built_request reference_deps pending_key).name
unfolding built_request api_key_request_name
same_name = refl

automatic-approved_example :
    (cs : List Condition) × (calculate_status_conditions reference_deps cluster answering
        pending_key 100
      ≡ ok cs)
    × (holds (reference_meta.find cs condition_approved) ≡ true)
automatic-approved_example =
    automatic-approved reference_deps reviewing answering pending_key request 90 95 cluster 100
      same_namespace same_name (inl refl) refl alone (inl refl) all_approve no_failure refl

same_spec : request.spec ≡ (built_request reference_deps pending_key).spec
unfolding built_request
same_spec = refl

request-leads_back_example :
    (reconcile_request client request []
      ≡ reconcile_read client request (cluster.get_key (key_of pending_key.metadata)) [])
    × (with_request reference_deps client 90 (ok request) []
        ≡ with_product reference_deps client 90 request
            (cluster.get_product (api_product_key pending_key))
            [])
    × (answers reference_deps answering pending_key (auto_approval 90 request) ≡ true)
    × (clean_up reference_deps client (pending_key ∷ []) request [] ≡ (ok tt, []))
request-leads_back_example =
    request-leads_back reference_deps client pending_key request [] answering 90 (pending_key ∷ [])
      (same_name, same_namespace, same_spec) (inl refl) refl refl

live : ¬ IsRetired reference_deps pending_key
unfolding is_failed_state
live e = cc

live_key-step_example :
    reconcile_key reference_deps client pending_key []
    ≡ due_step reference_deps client pending_key []
        (read_request reference_deps client pending_key [])
live_key-step_example = live_key-step reference_deps client pending_key [] live
