-- ===== src/Api/Key.antt =====
-- api/v1alpha1/apikey_types.go
use developer_portal_control.Prelude.{
  ℕ, String, Bool, false, Option, none, some, List, ◌==◌, if◌then◌else◌,
}
use developer_portal_control.Meta.{Condition, Meta, is_status_true}
use developer_portal_control.Api.Object.{ObjectMeta, ObjectKey}
use developer_portal_control.Api.External.{ApiKeyAuthentication}

abbrev pub condition_approved : String
condition_approved = "Approved"

abbrev pub condition_denied : String
condition_denied = "Denied"

abbrev pub condition_expired : String
condition_expired = "Expired"

abbrev pub condition_failed : String
condition_failed = "Failed"

abbrev pub condition_pending : String
condition_pending = "Pending"

pub record ApiProductReference : Type 0 where
  pub name : String
  pub namespace : String

pub record RequestedBy : Type 0 where
  pub user_id : String
  pub email : String

pub record ApiKeySpec : Type 0 where
  pub api_product_ref : ApiProductReference
  -- The name in `SecretRef`.
  pub secret_ref : String
  pub plan_tier : String
  pub use_case : String
  pub requested_by : RequestedBy
  pub expires_at : Option ℕ

pub record AuthScheme : Type 0 where
  pub authentication_spec : Option ApiKeyAuthentication
  pub credentials : Option String

pub record ApiKeyStatus : Type 0 where
  pub observed_generation : ℕ
  pub api_hostname : String
  pub limits : Option String
  pub auth_scheme : Option AuthScheme
  pub conditions : List Condition

pub record ApiKey : Type 0 where
  pub metadata : ObjectMeta
  pub open metadata use *
  pub spec : ApiKeySpec
  pub status : ApiKeyStatus

-- (*APIKey).APIProductKey; the receivers here are never nil.
abbrev pub api_product_key : ApiKey → ObjectKey
api_product_key a = record {
  name = a.spec.api_product_ref.name;
  namespace =
      if a.spec.api_product_ref.namespace == ""
      then a.namespace
      else a.spec.api_product_ref.namespace;
}

-- A condition that was found and has status True.
abbrev pub holds : Option Condition → Bool
holds none = false
holds (some c) = is_status_true c.status

-- (*APIKey).IsApproved
abbrev pub is_approved : Meta → ApiKey → Bool
is_approved meta a = holds (meta.find a.status.conditions condition_approved)
