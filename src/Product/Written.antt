-- ===== src/Product/Written.antt =====
-- A product whose status was calculated and written: it is calculated again, and not written again.
use mathlib.Core.Path.{subst}
use developer_portal_control.Prelude.{
  Bool, String, ℕ, true, false, Option, none, some, List, ◌≡◌, refl, sym, ap, ◌∙◌, arith,
  if◌then◌else◌,
}
use developer_portal_control.Meta.{Condition}
use developer_portal_control.Api.External.{PlanPolicy, HttpRoute, Ranges}
use developer_portal_control.Api.Product.{
  ApiProduct, ApiProductStatus, condition_ready, condition_plan_policy_discovered,
}
use developer_portal_control.Prelude.Outcome.{
  Result, ok, err, is_not_found, four-ok, from-four, >>=-eq-ok, ok-injective,
}
use developer_portal_control.Deps.{Deps}
use developer_portal_control.Client.{Call, Client, Snapshot, reordered}
use developer_portal_control.Helper.{Context}
use developer_portal_control.Product.Policies.{find_plan_policy, find_auth_policy, route_key}
use developer_portal_control.Product.Web.{Web}
use developer_portal_control.Product.Oidc.{oidc_discovery_status}
use developer_portal_control.Product.Status.{
  plan_policy_discovered_condition, plan_condition_of, ready_of_route, route_accepted,
  ready_condition, calculate_status, status_of,
}
use developer_portal_control.Product.Reconcile.{reconcile_status, write_status}
use developer_portal_control.Product.Issuers.{HasOneIssuer}
use developer_portal_control.Product.Settled.{status_settles}

chosen-type :
    (b : Bool) (x c : Condition) (r : Result Condition) (t : String)
    → (if b then ok x else r) ≡ ok c
    → x.type ≡ t
    → (r ≡ ok c → c.type ≡ t)
    → c.type ≡ t
chosen-type true x c r t e h f = sym (ap (λ z. z.type) (ok-injective e)) ∙ h
chosen-type false x c r t e h f = f e

module _ (d : Deps) (product : ApiProduct) where
  ready-type :
      (r : Result HttpRoute) (c : Condition)
      → ready_of_route d product r ≡ ok c
      → c.type ≡ condition_ready
  unfolding ready_of_route
  ready-type (ok route) c e =
      chosen-type (route_accepted d route) _ c _ condition_ready e refl
        (λ p. sym (ap (λ z. z.type) (ok-injective p)))
  ready-type (err x) c e = chosen-type (is_not_found x) _ c (err x) condition_ready e refl (λ p. cc)

  plan-type :
      (p : Option PlanPolicy) → (plan_condition_of d p).type ≡ condition_plan_policy_discovered
  plan-type none = refl
  plan-type (some p) = refl

module _ (d : Deps) (web again : Web) (now later max_size : ℕ) (h g : List Call) (ctx : Context)
    (s : Snapshot) (product : ApiProduct) where
  plan_cond-type :
      (c : Condition)
      → plan_policy_discovered_condition d s ctx product ≡ ok c
      → c.type ≡ condition_plan_policy_discovered
  unfolding plan_policy_discovered_condition
  plan_cond-type c e =
      let (p, q, f) =
        >>=-eq-ok (find_plan_policy d s ctx product) (λ p. ok (plan_condition_of d p)) e in
      sym (ap (λ (z : Condition). z.type) (ok-injective f)) ∙ plan-type d product p

  -- The reads do not depend on the status of the product.
  pub calculated_again :
      (status : ApiProductStatus) (o : Ranges)
      → calculate_status d web now max_size h s ctx product ≡ ok status
      → HasOneIssuer status.discovered_auth_scheme
      → (oidc_discovery_status d.texts web h product status.discovered_auth_scheme).1 ≡ none
      → calculate_status d again later max_size g
          (reordered s o)
          ctx
          (record product { status = status })
        ≡ ok status
  unfolding calculate_status plan_policy_discovered_condition ready_condition find_plan_policy
      find_auth_policy
  calculated_again status o e one f =
      let (plan, plan_cond, policy, ready_cond, reads, made) =
        four-ok (find_plan_policy d s ctx product)
          (plan_policy_discovered_condition d s ctx product) (find_auth_policy d s ctx product)
          (ready_condition d s product) (status_of d web now max_size h product) status e in
      from-four (find_plan_policy d s ctx product)
        (plan_policy_discovered_condition d s ctx product) (find_auth_policy d s ctx product)
        (ready_condition d s product)
        (status_of d again later max_size g (record product { status = status })) plan plan_cond
        policy ready_cond reads
      ∙ ap ok (
          subst
            (λ p.
              status_of d again later max_size g (record product { status = p }) plan plan_cond
                policy ready_cond
              ≡ p)
            made
            (status_settles d web again now later max_size h g product plan policy plan_cond
              ready_cond (plan_cond-type plan_cond reads.1)
              (ready-type d product (s.get_route (route_key product)) ready_cond reads.3)
              (subst HasOneIssuer
                (sym (ap (λ (p : ApiProductStatus). p.discovered_auth_scheme) made)) one)
              (subst (λ z. (oidc_discovery_status d.texts web h product z).1 ≡ none)
                (sym (ap (λ (p : ApiProductStatus). p.discovered_auth_scheme) made)) f)))

module _ (d : Deps) (c : Client) (web again : Web) (now later max_size : ℕ) (h g : List Call)
    (ctx : Context) (product : ApiProduct) where
  observes :
      (s : Snapshot) (status : ApiProductStatus)
      → calculate_status d web now max_size h s ctx product ≡ ok status
      → product.generation ≡ status.observed_generation
  unfolding calculate_status
  observes s status e =
      let (plan, plan_cond, policy, ready_cond, reads, made) =
        four-ok (find_plan_policy d s ctx product)
          (plan_policy_discovered_condition d s ctx product) (find_auth_policy d s ctx product)
          (ready_condition d s product) (status_of d web now max_size h product) status e in
      ap (λ (p : ApiProductStatus). p.observed_generation) made

  leaves :
      (status : ApiProductStatus)
      → product.generation ≡ status.observed_generation
      → write_status d c again later max_size (record product { status = status }) status g
        ≡ (ok tt, g)
  unfolding write_status
  leaves status e = rw ((d.kube.equal_product_status_iff status status).1 refl) (ground arith)

  -- A product whose status has been calculated, with no failure of the OIDC discovery, and written
  -- is left alone, provided that all methods of its discovered scheme that name a JWT issuer name the
  -- same one: whatever the web would answer by then, in whatever order the ranges of both calculations
  -- visit the methods, at any later time, where the cluster reads as it did and the product has that
  -- status, the same calculation gives the same status, and reconciling the product succeeds and
  -- writes nothing.
  pub product_settles :
      (status : ApiProductStatus) (o : Ranges)
      → calculate_status d web now max_size h (c.snapshot h) ctx product ≡ ok status
      → HasOneIssuer status.discovered_auth_scheme
      → (oidc_discovery_status d.texts web h product status.discovered_auth_scheme).1 ≡ none
      → c.snapshot g ≡ reordered (c.snapshot h) o
      → (calculate_status d again later max_size g
            (c.snapshot g)
            ctx
            (record product { status = status })
          ≡ ok status)
        × (reconcile_status d c again later max_size ctx (record product { status = status }) g
            ≡ (ok tt, g))
  unfolding reconcile_status
  product_settles status o e one f q =
      let same =
        subst
          (λ s.
            calculate_status d again later max_size g s ctx (record product { status = status })
            ≡ ok status)
          (sym q)
          (calculated_again d web again now later max_size h g ctx (c.snapshot h) product status o e
            one f) in
      (same, rw same (leaves status (observes (c.snapshot h) status e)))
