-- ===== src/Cluster/Origins.antt =====
-- What an enforcement secret rests on: back from the secret to the status of the key, to the
-- approval, and to who wrote the approval.
use mathlib.Core.Path.{subst}
use developer_portal_control.Prelude.{ℕ, true, List, [], ◌∷◌, ◌≡◌, refl, sym, ap, ◌∙◌, inl, inr, In}
use developer_portal_control.Prelude.Outcome.{ok, four-ok}
use developer_portal_control.Api.External.{Secret}
use developer_portal_control.Api.Key.{ApiKey, ApiKeyStatus, holds, is_approved, condition_approved}
use developer_portal_control.Api.Request.{ApiKeyRequest}
use developer_portal_control.Api.Approval.{ApiKeyApproval, condition_valid}
use developer_portal_control.Deps.{Deps}
use developer_portal_control.Client.{Client, Call, Snapshot, create_secret, update_key_status}
use developer_portal_control.Product.Web.{Web}
use developer_portal_control.Helper.{
  api_key_request_name, background, with_api_keys, with_api_key_requests, with_api_key_approvals,
}
use developer_portal_control.KeyStatus.Status.{
  calculate_status, calculate_auth_scheme, calculate_plan_limits, api_host_name,
}
use developer_portal_control.KeyStatus.Conditions.{calculate_status_conditions}
use developer_portal_control.Approved.{approved-IsAnswer}
use developer_portal_control.Request.{built_request}
use developer_portal_control.Secret.Desired.{enforcement_secret, enforcement_secret_name}
use developer_portal_control.Cluster.{Controller, Event, creates, changes, runs, writes, calls}
use developer_portal_control.Cluster.Runs.{
  In-append, In-append_right, granted, secret_writer, key_writer, keys_run, secrets_run,
}
use developer_portal_control.Cluster.Promises.{IsJudged, IsReported, Remembers}
use developer_portal_control.Cluster.Approvals.{
  HasOrigin, history, origin_transport, origin_later, approval_origin,
}

module _ (d : Deps) (web : ℕ → Web) (max_size : ℕ) (server : ℕ → List Call → Client) where
  -- An approval that answers the request of the key, was found valid, and has an origin.
  abbrev pub IsApproval : List Event → ApiKey → ApiKeyApproval → Type 0
  IsApproval events k a =
      (a.spec.approved ≡ true)
      × (a.namespace ≡ (built_request d k).namespace)
      × (a.spec.api_key_request_ref ≡ (built_request d k).name)
      × (holds (d.meta.find a.status.conditions condition_valid) ≡ true)
      × IsJudged (history d web max_size server events) a
      × HasOrigin d web max_size server events a

  -- The secret has the name of the enforcement secret of a key whose status was written as
  -- approved, and that rests on an approval.
  abbrev pub RestsOn : List Event → Secret → Type 0
  RestsOn events s =
      (k : ApiKey) × (s.name ≡ enforcement_secret_name d.texts k)
      × In (update_key_status k) (history d web max_size server events)
      × (is_approved d.meta k ≡ true)
      × (a : ApiKeyApproval) × IsApproval events k a

  module _ (remembers : (n : ℕ) (h : List Call) → Remembers h ((server n h).snapshot [])) where
    judged :
        (n : ℕ) (events : List Event) (as' : List ApiKeyApproval) (a : ApiKeyApproval)
        → ((server n (history d web max_size server events)).snapshot []).list_approvals ≡ ok as'
        → In a as'
        → holds (d.meta.find a.status.conditions condition_valid) ≡ true
        → IsJudged (history d web max_size server events) a
    judged n events as' a l i v =
        elim ((remembers n (history d web max_size server events)).validity_written as' a l i) [
          | inr j ↦ j
          | inl e ↦ let f = d.meta.find-nil condition_valid in let g = rw (e, f) at v in cc
        ]

    reported :
        (n : ℕ) (events : List Event) (ks : List ApiKey) (k : ApiKey)
        → ((server n (history d web max_size server events)).snapshot []).list_keys ≡ ok ks
        → In k ks
        → is_approved d.meta k ≡ true
        → IsReported (history d web max_size server events) k
    reported n events ks k l i t =
        elim ((remembers n (history d web max_size server events)).status_written ks k l i) [
          | inr j ↦ j
          | inl e ↦ let f = d.meta.find-nil condition_approved in let g = rw (e, f) at t in cc
        ]

    -- An approved status that is calculated for a key from the approvals that are listed.
    calculated :
        (n now : ℕ) (events : List Event) (ks : List ApiKey) (rs : List ApiKeyRequest)
        (as' : List ApiKeyApproval) (s : Snapshot) (key : ApiKey) (status : ApiKeyStatus)
        → ((server n (history d web max_size server events)).snapshot []).list_approvals ≡ ok as'
        → calculate_status d s
            (with_api_key_approvals (with_api_key_requests (with_api_keys background ks) rs) as')
            key
            now
          ≡ ok status
        → is_approved d.meta (record key { status = status }) ≡ true
        → (a : ApiKeyApproval) × IsApproval events (record key { status = status }) a
    unfolding calculate_status built_request api_key_request_name
    calculated n now events ks rs as' s key status l e t =
        let ctx =
          with_api_key_approvals (with_api_key_requests (with_api_keys background ks) rs) as' in
        let (cs, auth, limits, host, four, same) =
          four-ok (calculate_status_conditions d s ctx key now) (calculate_auth_scheme d s key)
            (calculate_plan_limits s key) (api_host_name s key)
            (λ conditions auth_scheme limits hostname. record {
              observed_generation = key.generation;
              api_hostname = hostname;
              limits = limits;
              auth_scheme = auth_scheme;
              conditions = conditions;
            })
            status e in
        let conditions : cs ≡ status.conditions = ap (λ (x : ApiKeyStatus). x.conditions) same in
        let (a, (i, v, ns, ref), yes_approved, x) =
          approved-IsAnswer d ctx key s now cs four.0
            (subst (λ y. holds (d.meta.find y condition_approved) ≡ true) (sym conditions) t) in
        let (w, j, same) =
          (remembers n (history d web max_size server events)).approvals_written as' a l i in
        (
          a,
          (
            yes_approved,
            ns,
            ref,
            v,
            judged n events as' a l i v,
            origin_transport d web max_size server events w a same
                (approval_origin d web max_size server remembers events w j),
          ),
        )

    reported_by_run :
        (x : Controller) (n now : ℕ) (events : List Event) (k : ApiKey)
        → In
            (update_key_status k)
            (writes d (web n) max_size x (server n (history d web max_size server events)) now)
        → is_approved d.meta k ≡ true
        → (a : ApiKeyApproval) × IsApproval events k a
    unfolding writes
    reported_by_run x n now events k i t =
        let c = server n (history d web max_size server events) in
        let e = key_writer x k (granted d (web n) max_size c now x _ i) in
        let (ks, rs, as', p, l, (key, h, status, j, live, calc, fresh, made)) =
          keys_run d c now (update_key_status k)
            (subst (λ y. In (update_key_status k) (writes d (web n) max_size y c now)) e i) in
        let same : record key { status = status } ≡ k = cc in
        subst (λ y. (a : ApiKeyApproval) × IsApproval events y a) same
          (calculated n now events ks rs as' (c.snapshot h) key status l calc
            (subst (λ y. is_approved d.meta y ≡ true) (sym same) t))

    -- Nothing is forgotten.
    recorded :
        (e : Event) (events : List Event) (w : Call)
        → In w (history d web max_size server events)
        → In w (history d web max_size server (e ∷ events))
    unfolding calls
    recorded (creates a) events w i = inr i
    recorded (changes a) events w i = inr i
    recorded (runs x n now) events w i =
        In-append_right w
          (writes d (web n) max_size x (server n (history d web max_size server events)) now)
          (history d web max_size server events) i

    IsApproval-later :
        (e : Event) (events : List Event) (k : ApiKey)
        → (a : ApiKeyApproval) × IsApproval events k a
        → (a : ApiKeyApproval) × IsApproval (e ∷ events) k a
    IsApproval-later e events k (a, (x, ns, ref, v, (w, i, p, q, r), o)) = (
      a,
      (
        x,
        ns,
        ref,
        v,
        (w, recorded e events _ i, p, q, r),
        origin_later d web max_size server e events a o,
      ),
    )

    -- The status of a key that was written as approved rests on an approval.
    status_origin :
        (events : List Event) (k : ApiKey)
        → In (update_key_status k) (history d web max_size server events)
        → is_approved d.meta k ≡ true
        → (a : ApiKeyApproval) × IsApproval events k a
    unfolding calls
    status_origin [] k i t = absurd i
    status_origin (creates a ∷ es) k (inl e) t = cc
    status_origin (creates a ∷ es) k (inr i) t =
        IsApproval-later (creates a) es k (status_origin es k i t)
    status_origin (changes a ∷ es) k (inl e) t = cc
    status_origin (changes a ∷ es) k (inr i) t =
        IsApproval-later (changes a) es k (status_origin es k i t)
    status_origin (runs x n now ∷ es) k i t =
        elim (In-append _
          (writes d (web n) max_size x (server n (history d web max_size server es)) now)
          (history d web max_size server es) i) [
            | inl j ↦ IsApproval-later (runs x n now) es k (reported_by_run x n now es k j t)
            | inr j ↦ IsApproval-later (runs x n now) es k (status_origin es k j t)
          ]

    created_secret :
        (x : Controller) (n now : ℕ) (events : List Event) (s : Secret)
        → In
            (create_secret s)
            (writes d (web n) max_size x (server n (history d web max_size server events)) now)
        → RestsOn events s
    unfolding writes enforcement_secret enforcement_secret_name
    created_secret x n now events s i =
        let c = server n (history d web max_size server events) in
        let e = secret_writer x s (granted d (web n) max_size c now x _ i) in
        let (namespace, ss, ks, l, due) =
          secrets_run d c (create_secret s)
            (subst (λ y. In (create_secret s) (writes d (web n) max_size y c now)) e i) in
        elim due [
          | inr (removed, j, other, made) ↦ cc
          | inl (k, value, (j, live, t), held, entries, made) ↦
              let (v, w, ns, name, same) = reported n events ks k l j t in
              let t' : is_approved d.meta v ≡ true =
                ap (λ (y : ApiKeyStatus). holds (d.meta.find y.conditions condition_approved)) same
                ∙ t in
              let is : enforcement_secret d k namespace value ≡ s = cc in
              let (a, approval) = status_origin events v w t' in
              (v, sym (ap (λ (y : Secret). y.name) is) ∙ rw (ns, name) refl, w, t', a, approval)
        ]

    secret_later :
        (e : Event) (events : List Event) (s : Secret) → RestsOn events s → RestsOn (e ∷ events) s
    secret_later e events s (k, name, i, t, a, approval) =
        let (b, later) = IsApproval-later e events k (a, approval) in
        (k, name, recorded e events _ i, t, b, later)

    -- Take a history of the operator, however its controllers and the people take turns and however
    -- stale the reads are, in which every approval that a list of the approvals shows was created
    -- or changed with the specification that it has, and every status with conditions that such a
    -- list, or a list of the keys, shows was written for that object by a controller: so the
    -- history goes back to the first approval, and nobody sets a status by hand. Then each
    -- enforcement secret that is created rests on an approval: it has the name of the secret of a
    -- key whose status was written with the condition Approved; the approval approves, refers by
    -- namespace and name to the request that is built for that key, and had the condition Valid by
    -- a status that was written for it; and what it says was written by a person, or by the
    -- controller of automatic approvals, at a point where the request was pending, no approval
    -- answered it, and its product had the approval mode automatic.
    pub secret-RestsOn :
        (events : List Event) (s : Secret)
        → In (create_secret s) (history d web max_size server events)
        → RestsOn events s
    unfolding calls
    secret-RestsOn [] s i = absurd i
    secret-RestsOn (creates a ∷ es) s (inl e) = cc
    secret-RestsOn (creates a ∷ es) s (inr i) =
        secret_later (creates a) es s (secret-RestsOn es s i)
    secret-RestsOn (changes a ∷ es) s (inl e) = cc
    secret-RestsOn (changes a ∷ es) s (inr i) =
        secret_later (changes a) es s (secret-RestsOn es s i)
    secret-RestsOn (runs x n now ∷ es) s i =
        elim (In-append _
          (writes d (web n) max_size x (server n (history d web max_size server es)) now)
          (history d web max_size server es) i) [
            | inl j ↦ secret_later (runs x n now) es s (created_secret x n now es s j)
            | inr j ↦ secret_later (runs x n now) es s (secret-RestsOn es s j)
          ]
