-- ===== src/Api/Request.antt =====
-- api/v1alpha1/apikeyrequest_types.go
use developer_portal_control.Prelude.{ℕ, String, Option, List}
use developer_portal_control.Meta.{Condition}
use developer_portal_control.Api.Object.{ObjectMeta, ObjectKey}
use developer_portal_control.Api.Key.{RequestedBy}

pub record ApiKeyReference : Type 0 where
  pub name : String
  pub namespace : String

-- (APIKeyReference).ClientObject
abbrev pub client_object : ApiKeyReference → ObjectKey
client_object a = record { namespace = a.namespace; name = a.name }

pub record ApiKeyRequestSpec : Type 0 where
  -- The name in `APIProductRef`.
  pub api_product_ref : String
  pub plan_tier : String
  pub use_case : String
  pub requested_by : RequestedBy
  pub api_key_ref : ApiKeyReference
  pub expires_at : Option ℕ

pub record ApiKeyRequestStatus : Type 0 where
  pub conditions : List Condition

pub record ApiKeyRequest : Type 0 where
  pub metadata : ObjectMeta
  pub open metadata use *
  pub spec : ApiKeyRequestSpec
  pub status : ApiKeyRequestStatus
