-- ===== src/RequestStatus/Writes.antt =====
-- What the reconcile of the statuses of the requests writes.
use developer_portal_control.Prelude.{
  none, List, [], ◌≡◌, ap, inl, inr, In, Bool-cases, Option-cases,
}
use developer_portal_control.Prelude.Outcome.{ok, Result-cases, is_not_found}
use developer_portal_control.Meta.{Condition}
use developer_portal_control.Api.Key.{ApiKey}
use developer_portal_control.Api.Request.{ApiKeyRequest, client_object}
use developer_portal_control.Client.{Client, Call, update_request_status}
use developer_portal_control.Client.Run.{done, for_each, no_requeue}
use developer_portal_control.Client.Sends.{same, more, Sends, Sends-then, Sends-for_each, Added-new}
use developer_portal_control.RequestStatus.{
  sync, reconcile_read, reconcile_request, reconcile, conditions_equal,
}
use developer_portal_control.RequestStatus.Agreement.{Matches, copy-eq, conditions_equal-false}

module _ (c : Client) (requests : List ApiKeyRequest) where
  -- A request of the list gets the conditions of the key that it refers to, as that is read then: the
  -- key is not being deleted, and the conditions of the request do not count as equal to the key's.
  abbrev pub IsCopy : Call → Type 0
  IsCopy w =
      (request : ApiKeyRequest) × (h : List Call) × (key : ApiKey) × In request requests
      × ((c.snapshot h).get_key (client_object request.spec.api_key_ref) ≡ ok key)
      × (key.deletion_timestamp ≡ none)
      × (¬ Matches key.status.conditions request.status.conditions)
      × (w
          ≡ update_request_status
              (record request { status = record { conditions = key.status.conditions } }))

  pub request-Sends :
      (request : ApiKeyRequest) → In request requests → Sends IsCopy (reconcile_request c request)
  unfolding reconcile_request reconcile_read sync
  request-Sends request i h =
      elim (Result-cases ((c.snapshot h).get_key (client_object request.spec.api_key_ref))) [
        | inr (x, e) ↦ elim (Bool-cases (is_not_found x)) [
          | inl q ↦ rw (e, q) same
          | inr q ↦ rw (e, q) same
        ]
        | inl (key, e) ↦ elim (Option-cases key.deletion_timestamp) [
          | inr (t, q) ↦ rw (e, q) same
          | inl q ↦
              elim (Bool-cases (conditions_equal key.status.conditions request.status.conditions)) [
                | inl p ↦ rw (e, q, p) same
                | inr p ↦
                    rw (e, q, p)
                      (more
                        (
                          request,
                          h,
                          key,
                          i,
                          e,
                          q,
                          conditions_equal-false key.status.conditions request.status.conditions p,
                          ap
                              (λ (cs : List Condition).
                                update_request_status
                                  (record request { status = record { conditions = cs } }))
                              (copy-eq key.status.conditions),
                        )
                        same)
              ]
        ]
      ]

  -- All that the reconcile of the statuses of the requests writes is conditions of listed requests:
  -- each gets those of the key to which it refers, as that is read then, times of transition
  -- included, where that key is not being deleted and the conditions of the request do not count as
  -- equal to the key's: they are not as many, or one of them has another status, reason, message or
  -- generation than the last of its type in the key. Nothing else of a request is changed.
  pub writes-IsCopy :
      (w : Call) → (c.snapshot []).list_requests ≡ ok requests → In w (reconcile c []).1 → IsCopy w
  unfolding reconcile
  writes-IsCopy w r i =
      Added-new IsCopy w
        (Sends-then IsCopy (for_each (reconcile_request c) requests) (done no_requeue)
          (Sends-for_each IsCopy (reconcile_request c) requests request-Sends) (λ h. same) [])
        (rw r at i)
