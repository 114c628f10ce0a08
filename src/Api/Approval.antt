-- ===== src/Api/Approval.antt =====
-- api/v1alpha1/apikeyapproval_types.go
use developer_portal_control.Prelude.{ℕ, String, Bool, List}
use developer_portal_control.Meta.{Condition}
use developer_portal_control.Api.Object.{ObjectMeta}

abbrev pub condition_valid : String
condition_valid = "Valid"

pub record ApiKeyApprovalSpec : Type 0 where
  -- The name in `APIKeyRequestRef`.
  pub api_key_request_ref : String
  pub approved : Bool
  pub reviewed_by : String
  pub reviewed_at : ℕ
  pub reason : String
  pub message : String

pub record ApiKeyApprovalStatus : Type 0 where
  pub observed_generation : ℕ
  pub conditions : List Condition

pub record ApiKeyApproval : Type 0 where
  pub metadata : ObjectMeta
  pub open metadata use *
  pub spec : ApiKeyApprovalSpec
  pub status : ApiKeyApprovalStatus
