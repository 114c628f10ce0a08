-- ===== src/Examples/Requests.antt =====
-- The request of a key and its approval, at concrete inputs.
use developer_portal_control.Prelude.{
  [], ◌∷◌, ◌≡◌, refl, inl, inr, ◌↔◌, true, false, In, none, sym, ◌∙◌,
}
use developer_portal_control.Prelude.Outcome.{ok, err, not_found}
use developer_portal_control.Api.Object.{ObjectKey}
use developer_portal_control.Api.Key.{holds}
use developer_portal_control.Api.Request.{ApiKeyRequest}
use developer_portal_control.Api.Approval.{condition_valid}
use developer_portal_control.Deps.Reference.{reference_deps}
use developer_portal_control.Meta.Reference.{reference_meta}
use developer_portal_control.Client.{Client, create_approval, update_request_status}
use developer_portal_control.Client.Run.{no_requeue}
use developer_portal_control.Client.Sends.{Sends}
use developer_portal_control.AutoApproval.{auto_approval, reconcile}
use developer_portal_control.AutoApproval.Guards.{IsPending, IsAutomatic, reconcile-creates_iff}
use developer_portal_control.Approval.{
  calculate_status, reconcile_status, reconcile_owner_reference,
}
use developer_portal_control.Approval.Validity.{
  RefersTo, HasDistinctKeys, written, status-valid_iff, approval_settles,
}
use developer_portal_control.Approval.Ownership.{IsOwned, owner-Sends}
use developer_portal_control.RequestStatus.{conditions_equal, sync}
use developer_portal_control.RequestStatus.Agreement.{
  Matches, conditions_equal_iff, conditions_equal-false, sync_settles,
}
use developer_portal_control.Client.{create_request}
use developer_portal_control.Client.Run.{for_each}
use mathlib.Core.Path.{subst}
use developer_portal_control.Request.{built_request, is_failed_state, desired_request}
use developer_portal_control.Request.Due.{IsDue}
use developer_portal_control.Request.Writes.{writes-IsDue}
use developer_portal_control.Examples.Cluster.{
  cluster, snapshot_with, client_of, context, request, request_name, approval, pending_key,
  approved_key, pending_condition, approved_condition, consumer_secret,
}

-- No approval has been created yet.
abbrev client : Client
client = client_of (snapshot_with (pending_key ∷ []) [] [] (ok consumer_secret))

abbrev request_key : ObjectKey
request_key = record { namespace = "shop"; name = request_name }

reconcile-creates_iff_example :
    In
      (create_approval (auto_approval 90 request))
      (reconcile reference_deps client 90 request_key []).1
    ↔ ((r : ApiKeyRequest) × IsPending reference_deps client 90 request_key r
        × IsAutomatic reference_deps client 90 r
        × (create_approval (auto_approval 90 r) ≡ create_approval (auto_approval 90 request)))
reconcile-creates_iff_example =
    reconcile-creates_iff reference_deps client 90 request_key
      (create_approval (auto_approval 90 request))

-- The request is approved by the system.
created :
    reconcile reference_deps client 90 request_key []
    ≡ (ok no_requeue, create_approval (auto_approval 90 request) ∷ [])
unfolding reconcile
created = refl

distinct : HasDistinctKeys (request ∷ [])
distinct r q (inl e) (inl f) a b = sym e ∙ f
distinct r q (inr i) j a b = absurd i
distinct r q i (inr j) a b = absurd j

status-valid_iff_example :
    (holds (
        reference_meta.find
          (calculate_status reference_deps 100 context approval).conditions
          condition_valid)
      ≡ true)
    ↔ ((r : ApiKeyRequest) × In r (request ∷ [])
        × RefersTo approval r
        × (r.deletion_timestamp ≡ none))
status-valid_iff_example = status-valid_iff reference_deps 100 context approval distinct

approval_settles_example :
    reconcile_status reference_deps client 200 context
      (written reference_deps context approval 100 200)
      []
    ≡ (ok tt, [])
approval_settles_example = approval_settles reference_deps context approval 100 200 client []

owner-Sends_example :
    Sends
      (IsOwned reference_deps client context approval)
      (reconcile_owner_reference reference_deps client context approval)
owner-Sends_example = owner-Sends reference_deps client context approval

conditions_equal_iff_example :
    (conditions_equal (approved_condition ∷ []) (pending_condition ∷ []) ≡ true)
    ↔ (Matches (approved_condition ∷ []) (pending_condition ∷ []))
conditions_equal_iff_example =
    conditions_equal_iff (approved_condition ∷ []) (pending_condition ∷ [])

-- The request is still shown as pending.
abbrev stale_request : ApiKeyRequest
stale_request = record request { status = record { conditions = pending_condition ∷ [] } }

stale : ¬ Matches approved_key.status.conditions stale_request.status.conditions
stale =
    conditions_equal-false approved_key.status.conditions stale_request.status.conditions unequal
  where
    unequal :
        conditions_equal approved_key.status.conditions stale_request.status.conditions ≡ false
    unequal = unfold conditions_equal in refl

sync_settles_example :
    ((sync client stale_request approved_key []).1
      ≡ update_request_status
          (record stale_request { status = record { conditions = approved_condition ∷ [] } })
        ∷ [])
    × (sync client
          (record stale_request { status = record { conditions = approved_condition ∷ [] } })
          approved_key
          []
        ≡ (ok tt, []))
sync_settles_example = sync_settles client stale_request approved_key [] [] refl stale (refl, tt)

-- The key is there, and its request is not there yet.
abbrev new_client : Client
new_client = client_of (record cluster { list_requests = ok []; get_request = λ k. err not_found })

requested :
    developer_portal_control.Request.reconcile reference_deps new_client []
    ≡ (ok no_requeue, create_request (built_request reference_deps pending_key) ∷ [])
unfolding developer_portal_control.Request.reconcile for_each
    developer_portal_control.Reconcilers.reconcile_resource
    developer_portal_control.Reconcilers.is_object_tagged_to_delete desired_request
requested = refl

writes-IsDue_example :
    IsDue reference_deps new_client
      (pending_key ∷ [])
      []
      (create_request (built_request reference_deps pending_key))
writes-IsDue_example =
    writes-IsDue reference_deps new_client (pending_key ∷ []) []
      (create_request (built_request reference_deps pending_key)) refl refl
      (subst (λ x. In (create_request (built_request reference_deps pending_key)) x.1)
        (sym requested) (inl refl))
