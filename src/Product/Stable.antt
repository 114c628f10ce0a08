-- ===== src/Product/Stable.antt =====
-- The status of a product, calculated once more from what was written.
use mathlib.Core.Path.{subst}
use developer_portal_control.Prelude.{
  String, ℕ, false, Option, none, some, List, [], ◌∷◌, ◌≡◌, refl, ap, ◌∙◌, inl, inr, arith,
  Bool-cases, if◌then◌else◌, eq_refl, ◌==◌, any,
}
use developer_portal_control.Meta.{Condition, Meta, merged}
use developer_portal_control.Meta.Sequence.{
  HasDistinctTypes, set_all, set_all_settles, set_all-remove_settles,
}
use developer_portal_control.Api.External.{AuthSchemeSpec, AuthMethods, AuthPolicy}
use developer_portal_control.Api.Product.{
  ApiProduct, ApiProductStatus, OpenApiStatus, OidcDiscoveryStatus, PlanSpec, condition_ready,
  condition_plan_policy_discovered, condition_auth_policy_discovered, condition_open_api_spec_ready,
  condition_oidc_discovered,
}
use developer_portal_control.Prelude.Outcome.{Error}
use developer_portal_control.Deps.{Deps, Texts}
use developer_portal_control.Client.{Call}
use developer_portal_control.Product.Policies.{is_auth_policy_accepted_and_enforced}
use developer_portal_control.Product.Web.{Web}
use developer_portal_control.Product.Oidc.{
  oidc_discovered_condition, extract_issuer_url_from_auth_scheme,
}
use developer_portal_control.Product.OpenApi.{
  keep_or_fetch, is_fetched, kept, open_api_spec_ready_condition, open_api_status, open_api_url,
  OpenApiResult,
}
use developer_portal_control.Product.Status.{
  auth_policy_discovered_condition, with_open_api_condition,
}
use developer_portal_control.Product.Fetches.{opened}

abbrev pub written_of :
    ℕ
    → List PlanSpec
    → Option AuthSchemeSpec
    → Option OpenApiStatus
    → List Condition
    → Option OidcDiscoveryStatus
    → ApiProductStatus
written_of generation plans scheme open_api conditions oidc = record {
  observed_generation = generation;
  discovered_plans = plans;
  open_api = open_api;
  conditions = conditions;
  discovered_auth_scheme = scheme;
  oidc_discovery = oidc;
}

pub assembled :
    (generation : ℕ) (plans : List PlanSpec) (scheme : Option AuthSchemeSpec)
    {o q : Option OpenApiStatus} {cs es : List Condition} {i j : Option OidcDiscoveryStatus}
    → o ≡ q
    → cs ≡ es
    → i ≡ j
    → written_of generation plans scheme o cs i ≡ written_of generation plans scheme q es j
assembled generation plans scheme p c r = rw (p, c, r) refl

pub auth-type :
    (d : Deps) (policy : Option AuthPolicy)
    → (auth_policy_discovered_condition d policy).type ≡ condition_auth_policy_discovered
unfolding auth_policy_discovered_condition
auth-type d none = refl
auth-type d (some p) = elim (Bool-cases (is_auth_policy_accepted_and_enforced d p)) [
  | inl e ↦ rw e refl
  | inr e ↦ rw e refl
]

pub oidc-type :
    (texts : Texts) (order : AuthMethods → AuthMethods) (scheme : Option AuthSchemeSpec)
    (e : Option Error)
    → (oidc_discovered_condition texts order scheme e).type ≡ condition_oidc_discovered
unfolding oidc_discovered_condition
oidc-type texts order scheme none =
    elim (Bool-cases (extract_issuer_url_from_auth_scheme order scheme == "")) [
      | inl e ↦ rw e refl
      | inr e ↦ rw e refl
    ]
oidc-type texts order scheme (some x) =
    elim (Bool-cases (extract_issuer_url_from_auth_scheme order scheme == "")) [
      | inl e ↦ rw e refl
      | inr e ↦ rw e refl
    ]

-- The four that are always set have distinct types, and none of them is about the document.
pub distinct_four :
    (c₁ c₂ c₃ c₄ : Condition)
    → c₁.type ≡ condition_plan_policy_discovered
    → c₂.type ≡ condition_auth_policy_discovered
    → c₃.type ≡ condition_oidc_discovered
    → c₄.type ≡ condition_ready
    → HasDistinctTypes (c₁ ∷ c₂ ∷ c₃ ∷ c₄ ∷ [])
      × (any (λ e. e.type == condition_open_api_spec_ready) (c₁ ∷ c₂ ∷ c₃ ∷ c₄ ∷ []) ≡ false)
distinct_four c₁ c₂ c₃ c₄ h₁ h₂ h₃ h₄ =
    rw (h₁, h₂, h₃, h₄) ((refl, (refl, (refl, (refl, tt)))), refl)

-- The types of the five conditions, in the order in which they are set.
pub distinct_types :
    (c₁ c₂ c₃ c₄ c₅ : Condition)
    → c₁.type ≡ condition_plan_policy_discovered
    → c₂.type ≡ condition_auth_policy_discovered
    → c₃.type ≡ condition_oidc_discovered
    → c₄.type ≡ condition_ready
    → c₅.type ≡ condition_open_api_spec_ready
    → HasDistinctTypes (c₁ ∷ c₂ ∷ c₃ ∷ c₄ ∷ c₅ ∷ [])
distinct_types c₁ c₂ c₃ c₄ c₅ h₁ h₂ h₃ h₄ h₅ =
    rw (h₁, h₂, h₃, h₄, h₅) (refl, (refl, (refl, (refl, (refl, tt)))))

module _ (d : Deps) (web : Web) (now max_size : ℕ) where
  -- A document of this generation and limit, with a condition, is kept with its error.
  keeps_both :
      (h : List Call) (product : ApiProduct) (url : String) (old : OpenApiStatus) (c : Condition)
      → product.generation ≡ product.status.observed_generation
      → old.max_size_used ≡ max_size
      → keep_or_fetch d web now max_size h product url (some old) (some c)
        ≡ kept d web now max_size old c
  unfolding keep_or_fetch is_fetched
  keeps_both h product url old c g m =
      elim (Bool-cases (is_fetched d web now max_size product old)) [
        | inl e ↦ rw e refl
        | inr e ↦ absurd (ground arith)
      ]

  pub kept_again :
      (h : List Call) (product : ApiProduct) (url : String) (s : OpenApiStatus) (c : Condition)
      → open_api_url product ≡ some url
      → product.generation ≡ product.status.observed_generation
      → product.status.open_api ≡ some s
      → s.max_size_used ≡ max_size
      → d.meta.find product.status.conditions condition_open_api_spec_ready ≡ some c
      → open_api_status d web now max_size h product ≡ kept d web now max_size s c
  unfolding keep_or_fetch
  kept_again h product url s c e g o m f =
      rw (opened d web now max_size h product url e, o, f) (keeps_both h product url s c g m)

module _ (meta : Meta) where
  -- The last of several conditions, as it stands in the list, says what it was set to say.
  last_found :
      (now : ℕ) (cs : List Condition) (c₁ c₂ c₃ c₄ v : Condition)
      → (c : Condition) × (meta.find (set_all meta now cs (c₁ ∷ c₂ ∷ c₃ ∷ c₄ ∷ v ∷ [])) v.type
          ≡ some c)
        × (c.status ≡ v.status)
        × (c.reason ≡ v.reason)
        × (c.message ≡ v.message)
  unfolding set_all
  last_found now cs c₁ c₂ c₃ c₄ v =
      let before = set_all meta now cs (c₁ ∷ c₂ ∷ c₃ ∷ c₄ ∷ []) in
      let (p, q, r) = says now (meta.find before v.type) v in
      (
        merged now (meta.find before v.type) v,
        meta.find-set now before v v.type
            ∙ ap
                (λ b.
                  if b
                  then some (merged now (meta.find before v.type) v)
                  else meta.find before v.type)
                (eq_refl v.type),
        p,
        q,
        r,
      )
    where
      says :
          (now : ℕ) (o : Option Condition) (v : Condition)
          → ((merged now o v).status ≡ v.status)
            × ((merged now o v).reason ≡ v.reason)
            × ((merged now o v).message ≡ v.message)
      says now none v = (refl, refl, refl)
      says now (some x) v = (refl, refl, refl)

with-set :
    (d : Deps) (now : ℕ) (cs : List Condition) (url : String) (r : OpenApiResult) (v : Condition)
    → open_api_spec_ready_condition r ≡ some v
    → with_open_api_condition d now (some url) r cs ≡ d.meta.set now cs v
unfolding with_open_api_condition
with-set d now cs url r v e = rw (with_open_api_condition, e) refl

module _ (d : Deps) (now later : ℕ) (cs : List Condition) (c₁ c₂ c₃ c₄ : Condition) where
  abbrev pub four : List Condition
  four = c₁ ∷ c₂ ∷ c₃ ∷ c₄ ∷ []

  pub settles_without :
      (r q : OpenApiResult)
      → HasDistinctTypes four
      → any (λ e. e.type == condition_open_api_spec_ready) four ≡ false
      → let new = with_open_api_condition d now none r (set_all d.meta now cs four) in
        with_open_api_condition d later none q (set_all d.meta later new four) ≡ new
  unfolding with_open_api_condition
  settles_without r q h n =
      set_all-remove_settles d.meta now later cs four condition_open_api_spec_ready h n

  pub settles_with :
      (url : String) (r q : OpenApiResult) (v : Condition)
      → open_api_spec_ready_condition r ≡ some v
      → open_api_spec_ready_condition q ≡ some v
      → HasDistinctTypes (c₁ ∷ c₂ ∷ c₃ ∷ c₄ ∷ v ∷ [])
      → let new = with_open_api_condition d now (some url) r (set_all d.meta now cs four) in
        with_open_api_condition d later (some url) q (set_all d.meta later new four) ≡ new
  unfolding set_all
  settles_with url r q v e f h =
      rw
        (
          with-set d now (set_all d.meta now cs four) url r v e,
          with-set d later
              (set_all d.meta later (d.meta.set now (set_all d.meta now cs four) v) four) url q v f,
        )
        (set_all_settles d.meta now later cs (c₁ ∷ c₂ ∷ c₃ ∷ c₄ ∷ v ∷ []) h)

  pub found_with :
      (url : String) (r : OpenApiResult) (v : Condition)
      → open_api_spec_ready_condition r ≡ some v
      → v.type ≡ condition_open_api_spec_ready
      → (c : Condition) × (d.meta.find
            (with_open_api_condition d now (some url) r (set_all d.meta now cs four))
            condition_open_api_spec_ready
          ≡ some c)
        × (c.status ≡ v.status)
        × (c.reason ≡ v.reason)
        × (c.message ≡ v.message)
  unfolding with_open_api_condition set_all
  found_with url r v e t =
      let (c, p, s₁, s₂, s₃) = last_found d.meta now cs c₁ c₂ c₃ c₄ v in
      (
        c,
        rw (with_open_api_condition, e)
            (subst
              (λ u. d.meta.find (set_all d.meta now cs (c₁ ∷ c₂ ∷ c₃ ∷ c₄ ∷ v ∷ [])) u ≡ some c) t
              p),
        s₁,
        s₂,
        s₃,
      )
