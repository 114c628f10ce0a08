-- ===== src/Deps/Reference.antt =====
-- An instance of `Deps`, on which the examples run.
use native.Mathlib.Decide.{ℕ_discrete}
use developer_portal_control.Prelude.{Bool, true, false, ◌∷◌, ◌≡◌, In, arith, none, some}
use developer_portal_control.Prelude.Decide.{string_discrete, to_bool, to_bool_iff}
use developer_portal_control.Prelude.Outcome.{Result, ok}
use developer_portal_control.Meta.{Condition}
use developer_portal_control.Meta.Reference.{reference_meta}
use developer_portal_control.Lo.Reference.{reference_lo}
use developer_portal_control.Api.Object.{ObjectMeta}
use developer_portal_control.Api.External.{AuthenticationSpec}
use developer_portal_control.Api.Key.{ApiKeyStatus}
use developer_portal_control.Api.Approval.{ApiKeyApprovalStatus}
use developer_portal_control.Api.Product.{ApiProductStatus}
use developer_portal_control.Deps.{Deps, Texts, Kube}

unfoldable Condition-discrete : Discrete Condition
Condition-discrete = hlevel (ℕ_discrete, string_discrete)

unfoldable ApiKeyStatus-discrete : Discrete ApiKeyStatus
ApiKeyStatus-discrete = hlevel (ℕ_discrete, string_discrete)

unfoldable ApiKeyApprovalStatus-discrete : Discrete ApiKeyApprovalStatus
ApiKeyApprovalStatus-discrete = hlevel (ℕ_discrete, string_discrete)

unfoldable ApiProductStatus-discrete : Discrete ApiProductStatus
ApiProductStatus-discrete = hlevel (ℕ_discrete, string_discrete)

-- A method is set if its part of the specification is.
abbrev uses_api_key : AuthenticationSpec → Bool
uses_api_key a = elim a.api_key [ none ↦ false | some s ↦ true ]

abbrev add_owner : ObjectMeta → ObjectMeta → Result ObjectMeta
add_owner o m = ok (record m { owner_references = o.uid ∷ m.owner_references })

pub add_owner_lem :
    (o m m' : ObjectMeta)
    → add_owner o m ≡ ok m'
    → In o.uid m'.owner_references × (m' ≡ record m { owner_references = m'.owner_references })
add_owner_lem o m m' h = ground arith

unfoldable pub reference_kube : Kube
unfolding string_discrete ApiKeyStatus-discrete ApiKeyApprovalStatus-discrete
    ApiProductStatus-discrete
reference_kube = record {
  uses_api_key = uses_api_key;
  set_controller_reference = add_owner;
  equal_key_status = λ a b. to_bool (ApiKeyStatus-discrete a b);
  equal_approval_status = λ a b. to_bool (ApiKeyApprovalStatus-discrete a b);
  equal_product_status = λ a b. to_bool (ApiProductStatus-discrete a b);
  adds_owner = add_owner_lem;
  equal_key_status_iff = λ a b. to_bool_iff (ApiKeyStatus-discrete a b);
  equal_approval_status_iff = λ a b. to_bool_iff (ApiKeyApprovalStatus-discrete a b);
  equal_product_status_iff = λ a b. to_bool_iff (ApiProductStatus-discrete a b);
}

abbrev pub reference_texts : Texts
reference_texts = record {
  hash_suffix = λ s. "8dee3e06";
  rfc3339 = λ t. "2026-01-01T00:00:00Z";
  decimal = λ n. "512000";
  error_text = λ e. "error";
}

abbrev pub reference_deps : Deps
reference_deps = record {
  lo = reference_lo;
  meta = reference_meta;
  texts = reference_texts;
  kube = reference_kube;
}
