-- ===== src/Cluster/Approvals.antt =====
-- Who wrote what an approval says.
use mathlib.Core.Path.{subst}
use developer_portal_control.Prelude.{
  ℕ, List, [], ◌∷◌, ◌++◌, ◌≡◌, refl, sym, ap, ◌∙◌, inl, inr, ◌⊎◌, arith, In,
}
use developer_portal_control.Api.Object.{ObjectKey}
use developer_portal_control.Api.Request.{ApiKeyRequest}
use developer_portal_control.Api.Approval.{ApiKeyApproval}
use developer_portal_control.Deps.{Deps}
use developer_portal_control.Client.{Client, Call, create_approval, update_approval}
use developer_portal_control.Product.Web.{Web}
use developer_portal_control.AutoApproval.{auto_approval}
use developer_portal_control.AutoApproval.Guards.{IsPending, IsAutomatic, reconcile-creates_iff}
use developer_portal_control.Cluster.{
  Controller, answers, Event, creates, changes, runs, writes, calls,
}
use developer_portal_control.Cluster.Runs.{
  In-append, granted, approval_creator, approval_writer, owners_run,
}
use developer_portal_control.Cluster.Promises.{SaysTheSame, said, IsWritten, Remembers}

module _ (d : Deps) (web : ℕ → Web) (max_size : ℕ) (server : ℕ → List Call → Client) where
  abbrev pub history : List Event → List Call
  history events = calls d web max_size server events

  -- A person wrote what the approval says, or the controller of automatic approvals did, when the
  -- request was pending and its product approved automatically.
  abbrev pub IsByPerson : List Event → ApiKeyApproval → Type 0
  IsByPerson events a =
      (w : ApiKeyApproval) × (In (creates w) events ⊎ In (changes w) events) × SaysTheSame w a

  abbrev pub IsBySystem : List Event → ApiKeyApproval → Type 0
  IsBySystem events a =
      (later before : List Event) × (req : ObjectKey) × (n : ℕ) × (now : ℕ)
      × (request : ApiKeyRequest) × (events ≡ later ++ runs (answers req) n now ∷ before)
      × IsPending d (server n (history before)) now req request
      × IsAutomatic d (server n (history before)) now request
      × SaysTheSame (auto_approval now request) a

  abbrev pub HasOrigin : List Event → ApiKeyApproval → Type 0
  HasOrigin events a = IsByPerson events a ⊎ IsBySystem events a

  pub origin_transport :
      (events : List Event) (a b : ApiKeyApproval)
      → SaysTheSame a b
      → HasOrigin events a
      → HasOrigin events b
  origin_transport events a b (p, q, r) (inl (w, i, (x, y, z))) = inl (w, i, (x ∙ p, y ∙ q, z ∙ r))
  origin_transport events a b (p, q, r)
        (inr (later, before, req, n, now, request, e, u, v, (x, y, z))) =
      inr (later, before, req, n, now, request, e, u, v, (x ∙ p, y ∙ q, z ∙ r))

  -- An origin stays one.
  pub origin_later :
      (e : Event) (events : List Event) (a : ApiKeyApproval)
      → HasOrigin events a
      → HasOrigin (e ∷ events) a
  origin_later e events a (inl (w, inl i, same)) = inl (w, inl (inr i), same)
  origin_later e events a (inl (w, inr i, same)) = inl (w, inr (inr i), same)
  origin_later e events a (inr (later, before, req, n, now, request, p, u, v, same)) =
      inr (e ∷ later, before, req, n, now, request, ap (λ es. e ∷ es) p, u, v, same)

  module _ (remembers : (n : ℕ) (h : List Call) → Remembers h ((server n h).snapshot [])) where
    -- A run of the controller of automatic approvals.
    created_by_run :
        (x : Controller) (n now : ℕ) (events : List Event) (w : ApiKeyApproval)
        → In (create_approval w) (writes d (web n) max_size x (server n (history events)) now)
        → HasOrigin (runs x n now ∷ events) w
    unfolding writes
    created_by_run x n now events w i =
        let c = server n (history events) in
        let (req, e) = approval_creator x w (granted d (web n) max_size c now x _ i) in
        let (request, p, a, made) =
          (reconcile-creates_iff d c now req (create_approval w)).0
            (subst (λ y. In (create_approval w) (writes d (web n) max_size y c now)) e i) in
        let same : auto_approval now request ≡ w = cc in
        inr ([], events, req, n, now, request, ap (λ y. runs y n now ∷ events) e, p, a, said same)

    -- A run of the controller of owners sends back what it has read.
    changed_by_run :
        (x : Controller) (n now : ℕ) (events : List Event) (w : ApiKeyApproval)
        → In (update_approval w) (writes d (web n) max_size x (server n (history events)) now)
        → IsWritten (history events) w
    unfolding writes
    changed_by_run x n now events w i =
        let c = server n (history events) in
        let e = approval_writer x w (granted d (web n) max_size c now x _ i) in
        let (as', rs, a, l, j, o) =
          owners_run d c (update_approval w)
            (subst (λ y. In (update_approval w) (writes d (web n) max_size y c now)) e i) in
        let (v, k, (p, q, s)) = (remembers n (history events)).approvals_written as' a l j in
        let owned : o.1 ≡ w = ground arith in
        let kept : SaysTheSame o.1 w = said owned in
        let read : SaysTheSame a o.1 = said (sym o.6) in
        (v, k, (p ∙ (read.0 ∙ kept.0), q ∙ (read.1 ∙ kept.1), s ∙ (read.2 ∙ kept.2)))

    -- Whoever writes an approval, what it says has an origin.
    pub approval_origin :
        (events : List Event) (w : ApiKeyApproval)
        → In (create_approval w) (history events) ⊎ In (update_approval w) (history events)
        → HasOrigin events w
    unfolding calls
    approval_origin [] w (inl i) = absurd i
    approval_origin [] w (inr i) = absurd i
    approval_origin (creates a ∷ es) w (inl (inl e)) =
        let same : a ≡ w = cc in inl (a, inl (inl refl), said same)
    approval_origin (creates a ∷ es) w (inl (inr i)) =
        origin_later _ es w (approval_origin es w (inl i))
    approval_origin (creates a ∷ es) w (inr (inl e)) = cc
    approval_origin (creates a ∷ es) w (inr (inr i)) =
        origin_later _ es w (approval_origin es w (inr i))
    approval_origin (changes a ∷ es) w (inr (inl e)) =
        let same : a ≡ w = cc in inl (a, inr (inl refl), said same)
    approval_origin (changes a ∷ es) w (inl (inr i)) =
        origin_later _ es w (approval_origin es w (inl i))
    approval_origin (changes a ∷ es) w (inl (inl e)) = cc
    approval_origin (changes a ∷ es) w (inr (inr i)) =
        origin_later _ es w (approval_origin es w (inr i))
    approval_origin (runs x n now ∷ es) w (inl i) =
        elim (In-append _ (writes d (web n) max_size x (server n (history es)) now) (history es)
          i) [
            | inl j ↦ created_by_run x n now es w j
            | inr j ↦ origin_later _ es w (approval_origin es w (inl j))
          ]
    approval_origin (runs x n now ∷ es) w (inr i) =
        elim (In-append _ (writes d (web n) max_size x (server n (history es)) now) (history es)
          i) [
            | inl j ↦
                let (v, k, same) = changed_by_run x n now es w j in
                origin_later _ es w (origin_transport es v w same (approval_origin es v k))
            | inr j ↦ origin_later _ es w (approval_origin es w (inr j))
          ]
