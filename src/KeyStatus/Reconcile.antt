-- ===== src/KeyStatus/Reconcile.antt =====
-- reconcileStatus, and the reconcile of all keys with the time of the next one.
use developer_portal_control.Prelude.{
  ℕ, ◌-◌, min, Bool, ◌&&◌, ◌||◌, Option, none, some, List, [], ◌∷◌, if◌then◌else◌, ltb, nat_eq,
  is_none,
}
use developer_portal_control.Prelude.Outcome.{ok, err}
use developer_portal_control.Api.Key.{ApiKey, ApiKeyStatus}
use developer_portal_control.Deps.{Deps}
use developer_portal_control.Client.{Client, update_key_status}
use developer_portal_control.Client.Run.{
  query, Run, Requeue, ◌>>=◌, done, perform, requeue_on_conflict,
}
use developer_portal_control.Helper.{
  Context, background, with_api_keys, with_api_key_requests, with_api_key_approvals,
}
use developer_portal_control.KeyStatus.Status.{calculate_status}

-- `Time.Sub` of a later time: a duration has 64 bits with a sign, and stops at the greatest one.
abbrev pub max_duration : ℕ
max_duration = 9_223_372_036_854_775_807

abbrev pub time_sub : ℕ → ℕ → ℕ
time_sub t now = min (t - now) max_duration

-- The earliest expiry that lies ahead, as the time until then; 0 is none so far.
unfoldable pub track_expiry : ℕ → Option ℕ → ℕ → ℕ
track_expiry now none requeue_after = requeue_after
track_expiry now (some t) requeue_after =
    if ltb now t && (nat_eq requeue_after 0 || ltb (time_sub t now) requeue_after)
    then time_sub t now
    else requeue_after

-- The keys that are not flagged for deletion.
abbrev pub is_active : ApiKey → Bool
is_active key = is_none key.deletion_timestamp

module _ (d : Deps) (c : Client) where
  unfoldable pub write_status : ApiKey → ApiKeyStatus → Run (Unit {0})
  write_status key status =
      if d.kube.equal_key_status status key.status
        && nat_eq key.generation key.status.observed_generation
      then done tt
      else perform c (update_key_status (record key { status = status }))

  unfoldable pub reconcile_status : Context → ℕ → ApiKey → Run (Unit {0})
  unfolding write_status
  reconcile_status ctx now key = do
    status ← query c (λ s. calculate_status d s ctx key now)
    write_status key status

  -- The loop over the keys.
  unfoldable pub reconcile_keys : Context → ℕ → ℕ → List ApiKey → Run Requeue
  reconcile_keys ctx now requeue_after [] h =
      (ok (record { again = Bool.false; after = requeue_after }), h)
  reconcile_keys ctx now requeue_after (key ∷ keys) h = elim (reconcile_status ctx now key h).0 [
    | ok u ↦
        reconcile_keys ctx now (track_expiry now key.spec.expires_at requeue_after) keys
          (reconcile_status ctx now key h).1
    | err e ↦ (requeue_on_conflict e, (reconcile_status ctx now key h).1)
  ]

  unfoldable pub reconcile : ℕ → Run Requeue
  unfolding reconcile_keys
  reconcile now = do
    keys ← query c (λ s. s.list_keys)
    requests ← query c (λ s. s.list_requests)
    approvals ← query c (λ s. s.list_approvals)
    let ctx =
        with_api_key_approvals (with_api_key_requests (with_api_keys background keys) requests)
          approvals
    reconcile_keys ctx now 0 (d.lo.filter is_active keys)
