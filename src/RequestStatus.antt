-- ===== src/RequestStatus.antt =====
-- internal/controller/apikeyrequest_status_controller.go: the conditions of a key, copied to its request.
pub mod Agreement
pub mod Writes
use developer_portal_control.Prelude.{
  ℕ, String, Bool, true, false, not, ◌&&◌, ◌||◌, Option, none, some, List, [], ◌∷◌, ◌==◌, map,
  if◌then◌else◌, is_some, nat_eq, length,
}
use developer_portal_control.Prelude.Outcome.{Error, Result, ok, err, is_not_found}
use developer_portal_control.Meta.{Condition, same_status}
use developer_portal_control.Api.Key.{ApiKey}
use developer_portal_control.Api.Request.{ApiKeyRequest, ApiKeyRequestStatus, client_object}
use developer_portal_control.Client.{Client, update_request_status}
use developer_portal_control.Client.Run.{
  Run, Requeue, no_requeue, query, perform, done, fail, for_each, ◌>>=◌, ◌>>◌,
}

-- The map from types to conditions: of two conditions of a type the later one is kept.
unfoldable pub last_of_type : List Condition → String → Option Condition
last_of_type [] t = none
last_of_type (c ∷ cs) t =
    let rest = last_of_type cs t in
    elim rest [ some later ↦ some later | none ↦ if c.type == t then some c else none ]

abbrev pub agree : Condition → Condition → Bool
agree a b =
    same_status a.status b.status
    && a.reason == b.reason
    && a.message == b.message
    && nat_eq a.observed_generation b.observed_generation

abbrev pub agrees_with : Option Condition → Condition → Bool
agrees_with none b = false
agrees_with (some a) b = agree a b

-- The loop over the second list.
unfoldable pub all_agree : List Condition → List Condition → Bool
all_agree as' [] = true
all_agree as' (b ∷ bs) = if agrees_with (last_of_type as' b.type) b then all_agree as' bs else false

-- conditionsEqual
unfoldable pub conditions_equal : List Condition → List Condition → Bool
unfolding last_of_type all_agree
conditions_equal as' bs = if nat_eq (length as') (length bs) then all_agree as' bs else false

unfoldable pub copy_conditions : List Condition → List Condition
copy_conditions cs =
    map
      (λ (c : Condition). record {
        type = c.type;
        status = c.status;
        observed_generation = c.observed_generation;
        last_transition_time = c.last_transition_time;
        reason = c.reason;
        message = c.message;
      })
      cs

module _ (c : Client) where
  unfoldable pub sync : ApiKeyRequest → ApiKey → Run (Unit {0})
  sync request key =
      if is_some key.deletion_timestamp
      then done tt
      else if conditions_equal key.status.conditions request.status.conditions
      then done tt
      else perform c (
          update_request_status (record request {
            status = record { conditions = copy_conditions key.status.conditions };
          }))

  unfoldable pub reconcile_read : ApiKeyRequest → Result ApiKey → Run (Unit {0})
  unfolding sync
  reconcile_read request (ok key) = sync request key
  reconcile_read request (err e) = if is_not_found e then done tt else fail e

  unfoldable pub reconcile_request : ApiKeyRequest → Run (Unit {0})
  unfolding reconcile_read
  reconcile_request request h =
      reconcile_read request ((c.snapshot h).get_key (client_object request.spec.api_key_ref)) h

  unfoldable pub reconcile : Run Requeue
  unfolding reconcile_request
  reconcile = do
    requests ← query c (λ s. s.list_requests)
    for_each reconcile_request requests
    done no_requeue
