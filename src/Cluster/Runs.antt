-- ===== src/Cluster/Runs.antt =====
-- Which controller can have made a write of a run, and from what it was made.
use developer_portal_control.Prelude.{
  ℕ, String, true, List, [], ◌∷◌, ◌++◌, ◌≡◌, refl, inl, inr, ◌⊎◌, arith, In, Bool-cases, ◌==◌,
  if◌then◌else◌, eq_iff, mem-keep,
}
use developer_portal_control.Prelude.Outcome.{Result, ok, Result-cases}
use developer_portal_control.Api.Object.{ObjectKey}
use developer_portal_control.Api.External.{Secret}
use developer_portal_control.Api.Key.{ApiKey}
use developer_portal_control.Api.Request.{ApiKeyRequest}
use developer_portal_control.Api.Approval.{ApiKeyApproval}
use developer_portal_control.Deps.{Deps}
use developer_portal_control.Client.{
  Client, Call, Snapshot, create_secret, update_key_status, create_approval, update_approval,
}
use developer_portal_control.Client.Run.{Run, done, no_requeue, query, ◌>>=◌}
use developer_portal_control.Access.{Rule, within, is_granted}
use developer_portal_control.Access.Granted.{Added-map, IsGranted, writes-within}
use developer_portal_control.Product.Web.{Web}
use developer_portal_control.Helper.{
  background, with_api_keys, with_api_key_requests, with_api_key_approvals, get_kuadrant_namespace,
}
use developer_portal_control.KeyStatus.Writes.{IsNewStatus, writes-IsNewStatus}
use developer_portal_control.KeyStatus.Reconcile.{reconcile as reconcile_keys}
use developer_portal_control.Secret.Desired.{enforcement_secret_label}
use developer_portal_control.Secret.Reconcile.{reconcile_in, reconcile as reconcile_secrets}
use developer_portal_control.Secret.Safety.{IsDue, reconcile-IsDue}
use developer_portal_control.Approval.{
  is_active_approval, reconcile_owner_reference, reconcile_owners,
}
use developer_portal_control.Approval.Ownership.{IsOwned, owner-Sends}
use developer_portal_control.Client.Sends.{Added-new, Sends-for_each}
use developer_portal_control.Cluster.{
  Controller, products, keys, secrets, requests, request_statuses, owners, validities, answers,
  rules_of, writes,
}

pub In-append : {A : Type 0} (x : A) (as' bs : List A) → In x (as' ++ bs) → In x as' ⊎ In x bs
In-append x [] bs i = inr i
In-append x (a ∷ as') bs (inl e) = inl (inl e)
In-append x (a ∷ as') bs (inr i) = elim (In-append x as' bs i) [
  | inl j ↦ inl (inr j)
  | inr j ↦ inr j
]

pub In-append_right : {A : Type 0} (x : A) (as' bs : List A) → In x bs → In x (as' ++ bs)
In-append_right x [] bs i = i
In-append_right x (a ∷ as') bs i = inr (In-append_right x as' bs i)

within-In :
    (rules : List Rule) (w : Call) (ws : List Call)
    → within rules ws ≡ true
    → In w ws
    → IsGranted rules w
unfolding within
within-In rules w [] h i = absurd i
within-In rules w (v ∷ ws) h (inl e) = ground arith
within-In rules w (v ∷ ws) h (inr i) = within-In rules w ws (ground arith) i

-- A run that writes has read.
after_read :
    {A B : Type 0} (c : Client) (f : Snapshot → Result A) (k : A → Run B) (w : Call)
    → In w ((query c f >>= k) []).1
    → (a : A) × (f (c.snapshot []) ≡ ok a) × In w (k a []).1
after_read c f k w i = elim (Result-cases (f (c.snapshot []))) [
  | inl (a, e) ↦ (a, e, rw e at i)
  | inr (x, e) ↦ absurd (rw e at i)
]

module _ (d : Deps) (web : Web) (max_size : ℕ) (c : Client) (now : ℕ) where
  pub granted :
      (controller : Controller) (w : Call)
      → In w (writes d web max_size controller c now)
      → IsGranted (rules_of controller) w
  unfolding writes
  granted controller w i = by_rule controller i
    where
      none : ObjectKey
      none = record { namespace = ""; name = "" }

      by_rule : (x : Controller) → In w (writes d web max_size x c now) → IsGranted (rules_of x) w
      by_rule products i = within-In _ w _ (writes-within d c web now max_size none).0 i
      by_rule keys i = within-In _ w _ (writes-within d c web now max_size none).1 i
      by_rule secrets i = within-In _ w _ (writes-within d c web now max_size none).2 i
      by_rule requests i = within-In _ w _ (writes-within d c web now max_size none).3 i
      by_rule request_statuses i = within-In _ w _ (writes-within d c web now max_size none).4 i
      by_rule owners i = within-In _ w _ (writes-within d c web now max_size none).5 i
      by_rule validities i = within-In _ w _ (writes-within d c web now max_size none).6 i
      by_rule (answers req) i = within-In _ w _ (writes-within d c web now max_size req).7 i

-- By the markers, one controller only can make a write of each of these kinds.
pub secret_writer :
    (x : Controller) (s : Secret) → IsGranted (rules_of x) (create_secret s) → x ≡ secrets
unfolding is_granted
secret_writer secrets s h = refl
secret_writer _ s h = cc

pub key_writer :
    (x : Controller) (k : ApiKey) → IsGranted (rules_of x) (update_key_status k) → x ≡ keys
unfolding is_granted
key_writer keys k h = refl
key_writer _ k h = cc

pub approval_creator :
    (x : Controller) (a : ApiKeyApproval)
    → IsGranted (rules_of x) (create_approval a)
    → (req : ObjectKey) × (x ≡ answers req)
unfolding is_granted
approval_creator (answers req) a h = (req, refl)
approval_creator _ a h = cc

pub approval_writer :
    (x : Controller) (a : ApiKeyApproval) → IsGranted (rules_of x) (update_approval a) → x ≡ owners
unfolding is_granted
approval_writer owners a h = refl
approval_writer _ a h = cc

module _ (d : Deps) (c : Client) where
  -- A status that a run writes is new for a key that it has listed.
  pub keys_run :
      (now : ℕ) (w : Call)
      → In w (reconcile_keys d c now []).1
      → (ks : List ApiKey) × (rs : List ApiKeyRequest) × (as' : List ApiKeyApproval) × ((c.snapshot
            []).list_keys
          ≡ ok ks)
        × ((c.snapshot []).list_approvals ≡ ok as')
        × IsNewStatus d c
            (with_api_key_approvals (with_api_key_requests (with_api_keys background ks) rs) as')
            now
            ks
            w
  unfolding reconcile_keys
  keys_run now w i =
      let (ks, k, j) = after_read c (λ s. s.list_keys) _ w i in
      let (rs, r, l) = after_read c (λ s. s.list_requests) _ w j in
      let (as', a, m) = after_read c (λ s. s.list_approvals) _ w l in
      (ks, rs, as', k, a, writes-IsNewStatus d c now ks rs as' w k r a i)

  pub secrets_run :
      (w : Call)
      → In w (reconcile_secrets d c []).1
      → (namespace : String) × (ss : List Secret) × (ks : List ApiKey) × ((c.snapshot []).list_keys
          ≡ ok ks)
        × IsDue d c namespace ks ss w
  unfolding reconcile_secrets reconcile_in
  secrets_run w i =
      let (namespace, n, j) =
        after_read c get_kuadrant_namespace
          (λ n. if n == "" then done no_requeue else reconcile_in d c n) w i in
      elim (Bool-cases (namespace == "")) [
        | inl e ↦ absurd (rw e at j)
        | inr e ↦
            let (ss, s, l) =
              after_read c (λ s. s.list_secrets namespace enforcement_secret_label "true") _ w
                (rw e at j) in
            let (ks, k, m) = after_read c (λ s. s.list_keys) _ w l in
            (
              namespace,
              ss,
              ks,
              k,
              reconcile-IsDue d c namespace ks ss w
                  (n, (λ p. ground (arith, eq_iff namespace "")), s, k) i,
            )
      ]

  pub owners_run :
      (w : Call)
      → In w (reconcile_owners d c []).1
      → (as' : List ApiKeyApproval) × (rs : List ApiKeyRequest) × (a : ApiKeyApproval)
        × ((c.snapshot []).list_approvals ≡ ok as')
        × In a as'
        × IsOwned d c (with_api_key_requests background rs) a w
  unfolding reconcile_owners
  owners_run w i =
      let (as', p, j) = after_read c (λ s. s.list_approvals) _ w i in
      let (rs, q, l) = after_read c (λ s. s.list_requests) _ w j in
      let ctx = with_api_key_requests background rs in
      let (a, m, o) =
        Added-new (λ v. (a : ApiKeyApproval) × In a as' × IsOwned d c ctx a v) w
          (Sends-for_each (λ v. (a : ApiKeyApproval) × In a as' × IsOwned d c ctx a v)
            (reconcile_owner_reference d c ctx) (d.lo.filter is_active_approval as')
            (λ a k h.
              let (n, t) =
                mem-keep is_active_approval a as'
                  (rw (d.lo.filter_lem is_active_approval as') at k) in
              Added-map (λ v o. (a, n, o)) (owner-Sends d c ctx a h))
            [])
          l in
      (as', rs, a, p, m, o)
