-- ===== src/Api/External.antt =====
-- Resources of other projects, with the fields that the controllers read. What they only copy is
-- kept whole, as the text that it is on the wire.
use developer_portal_control.Prelude.{ℕ, String, Option, List, In, length, ◌≡◌, ◌↔◌}
use developer_portal_control.Meta.{Condition}
use developer_portal_control.Api.Object.{ObjectKey, ObjectMeta}

-- corev1.Secret
pub record Secret : Type 0 where
  pub metadata : ObjectMeta
  pub open metadata use *
  pub type : String
  pub entries : List (String × String)

-- Kuadrant, of which only the namespace is read.
pub record Kuadrant : Type 0 where
  pub metadata : ObjectMeta
  pub open metadata use *

-- gwapiv1.ParentReference
pub record ParentReference : Type 0 where
  pub name : String
  pub namespace : Option String

-- gwapiv1.HTTPRoute; `parents` holds the conditions of each entry of `Status.Parents`.
pub record HttpRoute : Type 0 where
  pub metadata : ObjectMeta
  pub open metadata use *
  pub hostnames : List String
  pub parent_refs : List ParentReference
  pub parents : List (List Condition)

-- authorinov1beta3.ApiKeyAuthenticationSpec; `selector` holds the labels of a selector that is set.
pub record ApiKeyAuthentication : Type 0 where
  pub selector : Option (List (String × String))
  pub rest : String

-- kuadrantapiv1.MergeableAuthenticationSpec; `jwt` holds the issuer URL of a JWT method.
pub record AuthenticationSpec : Type 0 where
  pub api_key : Option ApiKeyAuthentication
  pub jwt : Option String
  pub credentials : String
  pub rest : String

-- A Go map, as the list of its entries.
abbrev pub AuthMethods : Type 0
AuthMethods = List (String × AuthenticationSpec)

-- kuadrantapiv1.AuthSchemeSpec
pub record AuthSchemeSpec : Type 0 where
  pub authentication : AuthMethods
  pub rest : String

-- The orders in which ranges visit the entries of a map: Go leaves them open, so that each range that
-- is done for an object, told apart by a number, has its own. It visits every entry, and none twice.
pub record Ranges : Type 0 where
  pub visit : ObjectKey → ℕ → AuthMethods → AuthMethods
  pub visit-In :
      (k : ObjectKey) (n : ℕ) (m : AuthMethods) (e : String × AuthenticationSpec)
      → In e (visit k n m) ↔ In e m
  pub length-visit : (k : ObjectKey) (n : ℕ) (m : AuthMethods) → length (visit k n m) ≡ length m

-- The target of a policy.
pub record TargetRef : Type 0 where
  pub kind : String
  pub name : String

-- kuadrantapiv1.AuthPolicy
pub record AuthPolicy : Type 0 where
  pub metadata : ObjectMeta
  pub open metadata use *
  pub target_ref : TargetRef
  pub auth_scheme : Option AuthSchemeSpec
  pub conditions : List Condition

-- planpolicyv1alpha1.Plan
pub record Plan : Type 0 where
  pub tier : String
  pub limits : String

-- planpolicyv1alpha1.PlanPolicy
pub record PlanPolicy : Type 0 where
  pub metadata : ObjectMeta
  pub open metadata use *
  pub target_ref : TargetRef
  pub plans : List Plan
