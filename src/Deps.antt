-- ===== src/Deps.antt =====
-- What the controllers call and the repository does not contain, as one parameter: the packages
-- meta and lo, texts that the Go library computes, and functions of the Kubernetes libraries.
pub mod Reference
use developer_portal_control.Prelude.{ℕ, String, Bool, true, List, ◌≡◌, ◌↔◌, In}
use developer_portal_control.Prelude.Outcome.{Error, Result, ok}
use developer_portal_control.Meta.{Meta}
use developer_portal_control.Lo.{Lo}
use developer_portal_control.Api.Object.{ObjectMeta}
use developer_portal_control.Api.External.{AuthenticationSpec}
use developer_portal_control.Api.Key.{ApiKeyStatus}
use developer_portal_control.Api.Approval.{ApiKeyApprovalStatus}
use developer_portal_control.Api.Product.{ApiProductStatus}

-- Texts: the first eight hexadecimal digits of a SHA-256 hash, a time in the format RFC 3339, a
-- number in decimal, the text of an error.
pub record Texts : Type 0 where
  pub hash_suffix : String → String
  pub rfc3339 : ℕ → String
  pub decimal : ℕ → String
  pub error_text : Error → String

-- `v.GetMethod() == authorinov1beta3.ApiKeyAuthentication`, controllerutil.SetControllerReference
-- on the metadata of an owner and of an object, and equality.Semantic.DeepEqual on each status.
pub record Kube : Type 0 where
  pub uses_api_key : AuthenticationSpec → Bool
  pub set_controller_reference : ObjectMeta → ObjectMeta → Result ObjectMeta
  pub equal_key_status : ApiKeyStatus → ApiKeyStatus → Bool
  pub equal_approval_status : ApiKeyApprovalStatus → ApiKeyApprovalStatus → Bool
  pub equal_product_status : ApiProductStatus → ApiProductStatus → Bool
  -- On success the owner is added and nothing else has changed.
  pub adds_owner :
      (o m m' : ObjectMeta)
      → set_controller_reference o m ≡ ok m'
      → In o.uid m'.owner_references × (m' ≡ record m { owner_references = m'.owner_references })
  pub equal_key_status_iff : (a b : ApiKeyStatus) → (equal_key_status a b ≡ true) ↔ (a ≡ b)
  pub equal_approval_status_iff :
      (a b : ApiKeyApprovalStatus) → (equal_approval_status a b ≡ true) ↔ (a ≡ b)
  pub equal_product_status_iff :
      (a b : ApiProductStatus) → (equal_product_status a b ≡ true) ↔ (a ≡ b)

pub record Deps : Type 1 where
  pub lo : Lo
  pub meta : Meta
  pub texts : Texts
  pub kube : Kube
