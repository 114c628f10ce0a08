-- ===== src/Examples/Products.antt =====
-- A product, its route, its policies and its documents, at concrete inputs.
use developer_portal_control.Prelude.{
  String, List, [], ◌∷◌, ◌≡◌, refl, sym, ◌∙◌, ◌↔◌, ◌⊎◌, inl, inr, ◌≢◌, In, true, none, some,
}
use mathlib.Core.Path.{subst}
use mathlib.Core.Option.{some-injective}
use developer_portal_control.Product.Issuers.{HasOneIssuer}
use developer_portal_control.Prelude.Outcome.{ok, err, other}
use developer_portal_control.Meta.{Condition, yes_true, is_status_true}
use developer_portal_control.Api.External.{
  AuthPolicy, HttpRoute, PlanPolicy, AuthSchemeSpec, AuthenticationSpec,
}
use developer_portal_control.Api.Product.{
  ApiProduct, ApiProductStatus, OidcDiscoveryStatus, condition_ready,
}
use developer_portal_control.Deps.Reference.{reference_deps, reference_texts}
use developer_portal_control.Client.{Client, Snapshot, reordered, update_product_status}
use developer_portal_control.Helper.{Context, background}
use developer_portal_control.Product.Reconcile.{
  reconcile_status, with_auth_policies, with_plan_policies,
}
use developer_portal_control.Product.Written.{product_settles}
use developer_portal_control.Product.Web.{Web, answered}
use developer_portal_control.Product.Policies.{
  plan_policy, policy_of_route, policy_of_read, find_plan_policy, find_auth_policy, route_key,
}
use developer_portal_control.Product.Oidc.{
  bare_condition, oidc_discovery_status, well_known_url, extract_issuer_url_from_auth_scheme,
  order_of, issuer_of,
}
use developer_portal_control.Product.OpenApi.{open_api_status}
use developer_portal_control.Product.Status.{
  ready_condition, status_of, calculate_status, plan_policy_discovered_condition, plan_condition_of,
}
use developer_portal_control.Product.Effective.{IsEffective, policy-IsEffective}
use developer_portal_control.Product.Bounds.{IsWithin, open_api-IsWithin}
use developer_portal_control.Product.Fetches.{document_settles}
use developer_portal_control.Product.Endpoints.{IsDocument, endpoint-IsDocument}
use developer_portal_control.Product.Readiness.{IsAccepted, ready_iff}
use developer_portal_control.Examples.Orders.{in_order, out_of_order}
use developer_portal_control.Examples.Cluster.{cluster, metadata_of, condition_of, product}

abbrev route : HttpRoute
route = record {
  metadata = metadata_of "shop" "route" "u8";
  hostnames = "api.example.com" ∷ [];
  parent_refs = record { name = "gateway"; namespace = some "edge" } ∷ [];
  parents = (condition_of "Accepted" "Accepted" "" ∷ []) ∷ [];
}

abbrev plan_of : String → String → String → String → PlanPolicy
plan_of namespace name kind target = record {
  metadata = metadata_of namespace name "u9";
  target_ref = record { kind = kind; name = target };
  plans = record { tier = "basic"; limits = "10/m" } ∷ [];
}

abbrev plans : List PlanPolicy
plans =
    plan_of "edge" "of-gateway" "Gateway" "gateway"
    ∷ plan_of "shop" "of-route" "HTTPRoute" "route"
    ∷ []

-- The policy of the route is taken, though that of the gateway comes first.
taken :
    policy_of_route plan_policy reference_deps route plans
    ≡ some (plan_of "shop" "of-route" "HTTPRoute" "route")
unfolding policy_of_route
taken = refl

policy-IsEffective_example :
    IsEffective plan_policy route plans (policy_of_route plan_policy reference_deps route plans)
policy-IsEffective_example = policy-IsEffective plan_policy route reference_deps plans

abbrev with_route : Snapshot
with_route = record cluster { get_route = λ k. ok route }

abbrev ready : Condition
ready = bare_condition condition_ready yes_true "HTTPRouteAccepted" "HTTPRoute shop/route accepted"

is_ready : ready_condition reference_deps with_route product ≡ ok ready
unfolding ready_condition mathlib.Core.List.flat_map
is_ready = refl

ready_iff_example :
    (is_status_true ready.status ≡ true)
    ↔ ((r : HttpRoute) × (with_route.get_route (route_key product) ≡ ok r) × IsAccepted r)
ready_iff_example = ready_iff reference_deps with_route product ready is_ready

-- Every URL serves one text, which is a document with one endpoint.
abbrev web : Web
web = record {
  exchange = λ h url. answered 200 (ok "{}");
  decode = λ body. ok (record {
    issuer = "https://id.example.com";
    token_endpoint = "https://id.example.com/token";
  });
  ranges = λ h. in_order;
}

-- No URL answers, and the ranges have another order.
abbrev silent_web : Web
silent_web = record {
  exchange = λ h url. answered 503 (ok "");
  decode = λ body. err (other "EOF");
  ranges = λ h. out_of_order;
}

-- The product with a URL of a document, and one of a method that takes tokens.
abbrev documented : ApiProduct
documented = record product {
  spec = record (product.spec) {
    documentation =
        some (record { open_api_spec_url = some "https://api.example.com/openapi.json" });
  };
}

fetched :
    (open_api_status reference_deps web 100 512 [] documented).0
    ≡ some (record { raw = "{}"; last_sync_time = 100; max_size_used = 512 })
unfolding open_api_status
fetched = refl

open_api-IsWithin_example :
    IsWithin 512 (open_api_status reference_deps web 100 512 [] documented).0
open_api-IsWithin_example = open_api-IsWithin reference_deps web 100 512 [] documented tt

document_settles_example :
    let status = status_of reference_deps web 100 512 [] documented none ready none ready in
    (open_api_status reference_deps silent_web 200 512 [] (record documented { status = status })).0
    ≡ status.open_api
document_settles_example =
    document_settles reference_deps web silent_web 100 200 512 [] [] documented none none ready
      ready

abbrev token_scheme : AuthSchemeSpec
token_scheme = record {
  authentication =
      (
        "token",
        record {
          api_key = none;
          jwt = some "https://id.example.com/";
          credentials = "";
          rest = "";
        },
      )
      ∷ (
        "key",
        record {
          api_key = some (record { selector = none; rest = "" });
          jwt = none;
          credentials = "";
          rest = "";
        },
      )
      ∷ [];
  rest = "";
}

one_issuer : HasOneIssuer (some token_scheme)
one_issuer scheme x y e i j n m =
    let same = λ (z : String × AuthenticationSpec) (k : In z scheme.authentication).
      subst (λ (s : AuthSchemeSpec). In z s.authentication) (sym (some-injective _ _ e)) k in
    issued x (same x i) n ∙ sym (issued y (same y j) m)
  where
    issued :
        (z : String × AuthenticationSpec)
        → In z token_scheme.authentication
        → issuer_of z.1.jwt ≢ ""
        → issuer_of z.1.jwt ≡ "https://id.example.com/"
    issued z (inl p) q =
        subst (λ (w : String × AuthenticationSpec). issuer_of w.1.jwt ≡ "https://id.example.com/") p
          refl
    issued z (inr (inl p)) q =
        absurd (q (subst (λ (w : String × AuthenticationSpec). issuer_of w.1.jwt ≡ "") p refl))
    issued z (inr (inr k)) q = absurd k

abbrev endpoint : OidcDiscoveryStatus
endpoint = record { token_endpoint = "https://id.example.com/token" }

discovered :
    (oidc_discovery_status reference_texts web [] product (some token_scheme)).0 ≡ some endpoint
unfolding oidc_discovery_status extract_issuer_url_from_auth_scheme
discovered = refl

endpoint-IsDocument_example :
    (product.status.oidc_discovery ≡ some endpoint)
    ⊎ IsDocument reference_texts web
        (web.exchange [] (
          well_known_url
            (extract_issuer_url_from_auth_scheme (order_of web [] product 0) (some token_scheme))))
        endpoint.token_endpoint
endpoint-IsDocument_example =
    endpoint-IsDocument reference_texts web [] product (some token_scheme) endpoint discovered

-- A policy in force for the route, with that scheme.
abbrev token_policy : AuthPolicy
token_policy = record {
  metadata = metadata_of "shop" "tokens" "u10";
  target_ref = record { kind = "HTTPRoute"; name = "route" };
  auth_scheme = some token_scheme;
  conditions = condition_of "Accepted" "Accepted" "" ∷ condition_of "Enforced" "Enforced" "" ∷ [];
}

abbrev policies : Context
policies = with_auth_policies (with_plan_policies background plans) (token_policy ∷ [])

-- After a write, the ranges have another order.
abbrev route_client : Client
route_client = record {
  snapshot = λ h. elim h [ [] ↦ with_route | w ∷ g ↦ reordered with_route out_of_order ];
  answer = λ h w. ok tt;
}

abbrev plan_cond : Condition
plan_cond = plan_condition_of reference_deps (some (plan_of "shop" "of-route" "HTTPRoute" "route"))

abbrev documented_status : ApiProductStatus
documented_status =
    status_of reference_deps web 100 512 [] documented
      (some (plan_of "shop" "of-route" "HTTPRoute" "route")) plan_cond (some token_policy) ready

calculated :
    calculate_status reference_deps web 100 512 [] with_route policies documented
    ≡ ok documented_status
unfolding calculate_status plan_policy_discovered_condition find_plan_policy find_auth_policy
    ready_condition policy_of_read policy_of_route mathlib.Core.List.flat_map
calculated = refl

discovery_succeeds :
    (oidc_discovery_status reference_texts web [] documented
      documented_status.discovered_auth_scheme).1
    ≡ none
unfolding status_of oidc_discovery_status extract_issuer_url_from_auth_scheme
    developer_portal_control.Product.Policies.is_auth_policy_accepted_and_enforced
discovery_succeeds = refl

discovers : documented_status.discovered_auth_scheme ≡ some token_scheme
unfolding status_of developer_portal_control.Product.Policies.is_auth_policy_accepted_and_enforced
discovers = refl

product_settles_example :
    (calculate_status reference_deps silent_web 200 512
        (update_product_status documented ∷ [])
        (reordered with_route out_of_order)
        policies
        (record documented { status = documented_status })
      ≡ ok documented_status)
    × (reconcile_status reference_deps route_client silent_web 200 512 policies
          (record documented { status = documented_status })
          (update_product_status documented ∷ [])
        ≡ (ok tt, update_product_status documented ∷ []))
product_settles_example =
    product_settles reference_deps route_client web silent_web 100 200 512 []
      (update_product_status documented ∷ []) policies documented documented_status out_of_order
      calculated (subst HasOneIssuer (sym discovers) one_issuer) discovery_succeeds refl
