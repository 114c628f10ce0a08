-- ===== src/Access/Granted.antt =====
-- That each controller is granted what it writes.
use mathlib.Core.Path.{subst}
use developer_portal_control.Prelude.{
  ℕ, String, true, List, [], ◌∷◌, ◌≡◌, refl, sym, inl, inr, arith, In, Bool-cases, mem-keep, ◌==◌,
  if◌then◌else◌,
}
use developer_portal_control.Client.{Client, Call}
use developer_portal_control.Client.Run.{◌>>=◌, Run, query, for_each, done, no_requeue}
use developer_portal_control.Client.Sends.{
  Added-new, Added, same, more, Sends, Sends-bind, Sends-then, Sends-for_each,
}
use developer_portal_control.Deps.{Deps}
use developer_portal_control.Helper.{
  background, with_api_keys, with_api_key_approvals, with_api_key_requests, get_kuadrant_namespace,
}
use developer_portal_control.Product.Web.{Web}
use developer_portal_control.Product.Reconcile.{
  is_active_product, with_plan_policies, with_auth_policies, reconcile as reconcile_products,
  reconcile_status as reconcile_product,
}
use developer_portal_control.Product.Writes.{status-Sends as product-Sends}
use developer_portal_control.Api.External.{Secret}
use developer_portal_control.Api.Key.{ApiKey}
use developer_portal_control.Api.Request.{ApiKeyRequest}
use developer_portal_control.KeyStatus.Reconcile.{
  is_active, reconcile_keys, reconcile as reconcile_key_statuses,
}
use developer_portal_control.KeyStatus.Writes.{keys-Sends}
use developer_portal_control.Approval.{
  is_active_approval, reconcile_statuses, reconcile_owners, reconcile_owner_reference,
  reconcile_status as reconcile_approval,
}
use developer_portal_control.Approval.Writes.{status-Sends as approval-Sends}
use developer_portal_control.Approval.Ownership.{owner-Sends}
use developer_portal_control.Request.{reconcile_key, clean_up, reconcile as reconcile_requests}
use developer_portal_control.Request.Due.{IsDue as IsRequestDue}
use developer_portal_control.Request.Writes.{key-Sends, clean_up-Sends}
use developer_portal_control.Secret.Desired.{enforcement_secret_label}
use developer_portal_control.Secret.Reconcile.{reconcile_in, reconcile as reconcile_secrets}
use developer_portal_control.Secret.Safety.{IsDue as IsSecretDue, loops, loops-Sends}
use developer_portal_control.Api.Object.{ObjectKey}
use developer_portal_control.RequestStatus.{
  reconcile_request, reconcile as reconcile_request_statuses,
}
use developer_portal_control.RequestStatus.Writes.{request-Sends}
use developer_portal_control.AutoApproval.{reconcile as reconcile_answer}
use developer_portal_control.AutoApproval.Guards.{reconcile-creates_iff}
use developer_portal_control.Access.{
  within, Rule, is_granted, product_rules, request_rules, key_status_rules, secret_rules,
  approval_status_rules, request_status_rules, auto_approval_rules, approval_rules,
}

abbrev pub IsGranted : List Rule → Call → Type 0
IsGranted rules w = is_granted rules w ≡ true

module _ {P Q : Call → Type 0} (f : (w : Call) → P w → Q w) where
  pub Added-map : {a b : List Call} → Added P a b → Added Q a b
  Added-map same = same
  Added-map (more p q) = more (f _ p) (Added-map q)

  Sends-map : {A : Type 0} (m : Run A) → Sends P m → Sends Q m
  Sends-map m s h = Added-map (s h)

module _ (rules : List Rule) where
  In-within :
      (calls : List Call)
      → ((w : Call) → In w calls → IsGranted rules w)
      → within rules calls ≡ true
  unfolding within
  In-within [] all = refl
  In-within (w ∷ calls) all = rw (all w (inl refl), In-within calls (λ v i. all v (inr i)))

  Added-within : {calls : List Call} → Added (IsGranted rules) [] calls → within rules calls ≡ true
  Added-within a = In-within _ (λ w i. Added-new (IsGranted rules) w a i)

module _ (d : Deps) (c : Client) where
  products-Sends :
      (web : Web) (now max_size : ℕ)
      → Sends (IsGranted product_rules) (reconcile_products d c web now max_size)
  unfolding reconcile_products is_granted
  products-Sends web now max_size =
      Sends-bind _ (query c (λ s. s.list_plan_policies)) _ (λ h. same)
        (λ h plans e.
          Sends-bind _ (query c (λ s. s.list_auth_policies)) _ (λ h. same)
            (λ h policies e.
              Sends-bind _ (query c (λ s. s.list_products)) _ (λ h. same)
                (λ h products e.
                  Sends-for_each _
                    (reconcile_product d c web now max_size
                      (with_auth_policies (with_plan_policies background plans) policies))
                    (d.lo.filter is_active_product products)
                    (λ p i.
                      let (k, t) =
                        mem-keep is_active_product p products
                          (rw (d.lo.filter_lem is_active_product products) at i) in
                      Sends-map (λ w p. subst (IsGranted product_rules) (sym p.7) refl)
                        (reconcile_product d c web now max_size
                          (with_auth_policies (with_plan_policies background plans) policies) p)
                        (product-Sends d c web now max_size
                          (with_auth_policies (with_plan_policies background plans) policies)
                          products p k (ground arith))))))

  key_statuses-Sends :
      (now : ℕ) → Sends (IsGranted key_status_rules) (reconcile_key_statuses d c now)
  unfolding reconcile_key_statuses is_granted
  key_statuses-Sends now =
      Sends-bind _ (query c (λ s. s.list_keys)) _ (λ h. same)
        (λ h keys e.
          Sends-bind _ (query c (λ s. s.list_requests)) _ (λ h. same)
            (λ h requests e.
              Sends-bind _ (query c (λ s. s.list_approvals)) _ (λ h. same)
                (λ h approvals e.
                  Sends-map (λ w p. subst (IsGranted key_status_rules) (sym p.7) refl)
                    (reconcile_keys d c
                      (with_api_key_approvals
                        (with_api_key_requests (with_api_keys background keys) requests) approvals)
                      now 0 (d.lo.filter is_active keys))
                    (keys-Sends d c
                      (with_api_key_approvals
                        (with_api_key_requests (with_api_keys background keys) requests) approvals)
                      now keys (d.lo.filter is_active keys) 0
                      (λ key i.
                        let (k, t) =
                          mem-keep is_active key keys (rw (d.lo.filter_lem is_active keys) at i) in
                        (k, ground arith))))))

  validities-Sends :
      (now : ℕ) → Sends (IsGranted approval_status_rules) (reconcile_statuses d c now)
  unfolding reconcile_statuses is_granted
  validities-Sends now =
      Sends-bind _ (query c (λ s. s.list_approvals)) _ (λ h. same)
        (λ h approvals e.
          Sends-bind _ (query c (λ s. s.list_requests)) _ (λ h. same)
            (λ h requests e.
              Sends-for_each _
                (reconcile_approval d c now (with_api_key_requests background requests))
                (d.lo.filter is_active_approval approvals)
                (λ a i.
                  let (k, t) =
                    mem-keep is_active_approval a approvals
                      (rw (d.lo.filter_lem is_active_approval approvals) at i) in
                  Sends-map (λ w p. subst (IsGranted approval_status_rules) (sym p.4) refl)
                    (reconcile_approval d c now (with_api_key_requests background requests) a)
                    (approval-Sends d c now (with_api_key_requests background requests) approvals a
                      k (ground arith)))))

  owners-Sends : Sends (IsGranted approval_rules) (reconcile_owners d c)
  unfolding reconcile_owners is_granted
  owners-Sends =
      Sends-bind _ (query c (λ s. s.list_approvals)) _ (λ h. same)
        (λ h approvals e.
          Sends-bind _ (query c (λ s. s.list_requests)) _ (λ h. same)
            (λ h requests e.
              Sends-for_each _
                (reconcile_owner_reference d c (with_api_key_requests background requests))
                (d.lo.filter is_active_approval approvals)
                (λ a i.
                  Sends-map (λ w p. subst (IsGranted approval_rules) (sym p.7) refl)
                    (reconcile_owner_reference d c (with_api_key_requests background requests) a)
                    (owner-Sends d c (with_api_key_requests background requests) a))))

  requests-Sends : Sends (IsGranted request_rules) (reconcile_requests d c)
  unfolding reconcile_requests is_granted
  requests-Sends =
      Sends-bind _ (query c (λ s. s.list_keys)) _ (λ h. same)
        (λ h keys e.
          Sends-bind _ (query c (λ s. s.list_requests)) _ (λ h. same)
            (λ h requests e.
              Sends-then _ (for_each (reconcile_key d c) keys) _
                (Sends-for_each _ (reconcile_key d c) keys (λ key i.
                  Sends-map (due keys requests) (reconcile_key d c key)
                    (key-Sends d c keys requests key i)))
                (Sends-then _ (for_each (clean_up d c keys) requests) (done no_requeue)
                  (Sends-for_each _ (clean_up d c keys) requests (λ r i.
                    Sends-map (due keys requests) (clean_up d c keys r)
                      (clean_up-Sends d c keys requests r i)))
                  (λ h. same))))
    where
      due :
          (keys : List ApiKey) (requests : List ApiKeyRequest) (w : Call)
          → IsRequestDue d c keys requests w
          → IsGranted request_rules w
      due keys requests w (inl p) = subst (IsGranted request_rules) (sym p.3) refl
      due keys requests w (inr (inl p)) = subst (IsGranted request_rules) (sym p.7) refl
      due keys requests w (inr (inr (inl p))) = subst (IsGranted request_rules) (sym p.3) refl
      due keys requests w (inr (inr (inr p))) = subst (IsGranted request_rules) (sym p.3) refl

  secrets-Sends : Sends (IsGranted secret_rules) (reconcile_secrets d c)
  unfolding reconcile_secrets reconcile_in is_granted
  secrets-Sends =
      Sends-bind _ (query c get_kuadrant_namespace) _ (λ h. same)
        (λ h namespace e. in_namespace namespace)
    where
      due :
          (namespace : String) (keys : List ApiKey) (secrets : List Secret) (w : Call)
          → IsSecretDue d c namespace keys secrets w
          → IsGranted secret_rules w
      due namespace keys secrets w (inl (key, value, i, b, entries, p)) =
          subst (IsGranted secret_rules) (sym p) refl
      due namespace keys secrets w (inr p) = subst (IsGranted secret_rules) (sym p.3) refl

      listing : (namespace : String) → Sends (IsGranted secret_rules) (reconcile_in d c namespace)
      listing namespace =
          Sends-bind _ (query c (λ s. s.list_secrets namespace enforcement_secret_label "true"))
            (λ secrets. query c (λ s. s.list_keys) >>= (λ keys. loops d c namespace keys secrets))
            (λ h. same)
            (λ h secrets e.
              Sends-bind _ (query c (λ s. s.list_keys)) (λ keys. loops d c namespace keys secrets)
                (λ h. same)
                (λ h keys e.
                  Sends-map (due namespace keys secrets) (loops d c namespace keys secrets)
                    (loops-Sends d c namespace keys secrets)))

      in_namespace :
          (namespace : String)
          → Sends
              (IsGranted secret_rules)
              (if namespace == "" then done no_requeue else reconcile_in d c namespace)
      in_namespace namespace h = elim (Bool-cases (namespace == "")) [
        | inl e ↦ rw e same
        | inr e ↦ rw e (listing namespace h)
      ]

  statuses-Sends : Sends (IsGranted request_status_rules) (reconcile_request_statuses c)
  unfolding reconcile_request_statuses is_granted
  statuses-Sends =
      Sends-bind _ (query c (λ s. s.list_requests)) _ (λ h. same)
        (λ h requests e.
          Sends-then _ (for_each (reconcile_request c) requests) (done no_requeue)
            (Sends-for_each _ (reconcile_request c) requests (λ r i.
              Sends-map (λ w p. subst (IsGranted request_status_rules) (sym p.7) refl)
                (reconcile_request c r) (request-Sends c requests r i)))
            (λ h. same))

  answer-IsGranted :
      (now : ℕ) (req : ObjectKey) (w : Call)
      → In w (reconcile_answer d c now req []).1
      → IsGranted auto_approval_rules w
  unfolding is_granted
  answer-IsGranted now req w i =
      let (request, p, a, made) = (reconcile-creates_iff d c now req w).0 i in
      subst (IsGranted auto_approval_rules) made refl

  -- Every call by which a reconcile changes an object of the cluster, or its status, is one that the
  -- RBAC markers of its own controller grant, for each of the eight controllers and whatever the
  -- cluster answers: the resource, the subresource and the verb of the call stand in one marker.
  pub writes-within :
      (web : Web) (now max_size : ℕ) (req : ObjectKey)
      → (within product_rules (reconcile_products d c web now max_size []).1 ≡ true)
        × (within key_status_rules (reconcile_key_statuses d c now []).1 ≡ true)
        × (within secret_rules (reconcile_secrets d c []).1 ≡ true)
        × (within request_rules (reconcile_requests d c []).1 ≡ true)
        × (within request_status_rules (reconcile_request_statuses c []).1 ≡ true)
        × (within approval_rules (reconcile_owners d c []).1 ≡ true)
        × (within approval_status_rules (reconcile_statuses d c now []).1 ≡ true)
        × (within auto_approval_rules (reconcile_answer d c now req []).1 ≡ true)
  writes-within web now max_size req = (
    Added-within product_rules (products-Sends web now max_size []),
    Added-within key_status_rules (key_statuses-Sends now []),
    Added-within secret_rules (secrets-Sends []),
    Added-within request_rules (requests-Sends []),
    Added-within request_status_rules (statuses-Sends []),
    Added-within approval_rules (owners-Sends []),
    Added-within approval_status_rules (validities-Sends now []),
    In-within auto_approval_rules _ (answer-IsGranted now req),
  )
