-- ===== src/Examples/Cluster.antt =====
-- A cluster with one product, one key of it, the key's request and its approval, on which the
-- theorems are applied.
use developer_portal_control.Prelude.{String, none, some, List, [], ◌∷◌, ◌==◌, if◌then◌else◌, true}
use developer_portal_control.Prelude.Outcome.{Result, ok, err, not_found}
use developer_portal_control.Meta.{Condition, yes_true}
use developer_portal_control.Api.Object.{ObjectMeta, ObjectKey, fresh_metadata}
use developer_portal_control.Api.External.{Secret, AuthenticationSpec, AuthSchemeSpec, Kuadrant}
use developer_portal_control.Api.Key.{ApiKey, ApiKeySpec, condition_approved, condition_pending}
use developer_portal_control.Api.Request.{ApiKeyRequest}
use developer_portal_control.Api.Approval.{ApiKeyApproval, condition_valid}
use developer_portal_control.Api.Product.{ApiProduct}
use developer_portal_control.Client.{Client, Snapshot}
use developer_portal_control.Examples.Orders.{in_order}
use developer_portal_control.Helper.{
  Context, background, with_api_key_requests, with_api_key_approvals,
}

abbrev pub metadata_of : String → String → String → ObjectMeta
metadata_of namespace name uid = record (fresh_metadata name namespace) {
  uid = uid;
  generation = 1;
}

abbrev pub condition_of : String → String → String → Condition
condition_of type reason message = record {
  type = type;
  status = yes_true;
  observed_generation = 1;
  last_transition_time = some 100;
  reason = reason;
  message = message;
}

abbrev pub method : String × AuthenticationSpec
method = (
  "api-key",
  record {
    api_key = some (record { selector = some (("app", "shop") ∷ []); rest = "" });
    jwt = none;
    credentials = "";
    rest = "";
  },
)

abbrev pub scheme : AuthSchemeSpec
scheme = record { authentication = method ∷ []; rest = "" }

abbrev pub product : ApiProduct
product = record {
  metadata = metadata_of "shop" "gold" "u1";
  spec = record { approval_mode = "automatic"; target_ref = "route"; documentation = none };
  status = record {
    observed_generation = 1;
    discovered_plans = [];
    open_api = none;
    conditions = [];
    discovered_auth_scheme = some scheme;
    oidc_discovery = none;
  };
}

abbrev pub key_spec : ApiKeySpec
key_spec = record {
  api_product_ref = record { name = "gold"; namespace = "shop" };
  secret_ref = "consumer";
  plan_tier = "basic";
  use_case = "test";
  requested_by = record { user_id = "ann"; email = "ann@example.com" };
  expires_at = some 500;
}

-- The key, with the conditions that it has.
abbrev pub key_with : List Condition → ApiKey
key_with conditions = record {
  metadata = metadata_of "dev" "mine" "u2";
  spec = key_spec;
  status = record {
    observed_generation = 1;
    api_hostname = "";
    limits = none;
    auth_scheme = none;
    conditions = conditions;
  };
}

abbrev pub pending_condition : Condition
pending_condition =
    condition_of condition_pending "AwaitingApproval" "API key request is awaiting approval"

abbrev pub approved_condition : Condition
approved_condition = condition_of condition_approved "Approved" "API key request approved by admin"

abbrev pub pending_key : ApiKey
pending_key = key_with (pending_condition ∷ [])

abbrev pub approved_key : ApiKey
approved_key = key_with (approved_condition ∷ [])

abbrev pub request_name : String
request_name = "dev-mine-8dee3e06"

abbrev pub request : ApiKeyRequest
request = record {
  metadata = metadata_of "shop" request_name "u3";
  spec = record {
    api_product_ref = "gold";
    plan_tier = "basic";
    use_case = "test";
    requested_by = record { user_id = "ann"; email = "ann@example.com" };
    api_key_ref = record { name = "mine"; namespace = "dev" };
    expires_at = some 500;
  };
  status = record { conditions = pending_condition ∷ [] };
}

abbrev pub approval : ApiKeyApproval
approval = record {
  metadata = metadata_of "shop" "approval" "u4";
  spec = record {
    api_key_request_ref = request_name;
    approved = true;
    reviewed_by = "admin";
    reviewed_at = 90;
    reason = "";
    message = "";
  };
  status = record {
    observed_generation = 1;
    conditions = condition_of condition_valid "Valid" "" ∷ [];
  };
}

abbrev pub context : Context
context = with_api_key_approvals (with_api_key_requests background (request ∷ [])) (approval ∷ [])

abbrev pub consumer_secret : Secret
consumer_secret = record {
  metadata = metadata_of "dev" "consumer" "u5";
  type = "Opaque";
  entries = ("api_key", "abc") ∷ [];
}

-- An enforcement secret of no key.
abbrev pub stale_secret : Secret
stale_secret = record {
  metadata = metadata_of "kuadrant-system" "stale" "u6";
  type = "Opaque";
  entries = [];
}

abbrev pub kuadrant : Kuadrant
kuadrant = record { metadata = metadata_of "kuadrant-system" "kuadrant" "u7" }

abbrev pub answer_named : {A : Type 0} → String → A → ObjectKey → Result A
answer_named name a k = if k.name == name then ok a else err not_found

-- The cluster with these keys, approvals and secrets.
abbrev pub snapshot_with :
    List ApiKey → List ApiKeyApproval → List Secret → Result Secret → Snapshot
snapshot_with keys approvals secrets consumer = record {
  list_keys = ok keys;
  list_requests = ok (request ∷ []);
  list_approvals = ok approvals;
  list_products = ok (product ∷ []);
  list_plan_policies = ok [];
  list_auth_policies = ok [];
  list_kuadrants = ok (kuadrant ∷ []);
  list_secrets = λ namespace label value. ok secrets;
  list_approvals_in = λ namespace. ok approvals;
  get_key = λ k. err not_found;
  get_request = answer_named request_name request;
  get_product = answer_named "gold" product;
  get_route = λ k. err not_found;
  get_secret = λ k. if k.name == "consumer" then consumer else err not_found;
  ranges = in_order;
}

-- A client that accepts every write.
abbrev pub client_of : Snapshot → Client
client_of s = record { snapshot = λ h. s; answer = λ h w. ok tt }

abbrev pub cluster : Snapshot
cluster = snapshot_with (pending_key ∷ []) (approval ∷ []) (stale_secret ∷ []) (ok consumer_secret)
