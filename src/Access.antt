-- ===== src/Access.antt =====
-- The RBAC markers of the controllers in internal/controller, from which config/rbac/role.yaml is
-- generated, and what the writes need.
pub mod Granted
use developer_portal_control.Prelude.{String, Bool, ◌&&◌, List, [], ◌∷◌, ◌==◌, any, true}
use developer_portal_control.Client.{
  Call, create_request, update_request, delete_request, update_request_status, update_key_status,
  create_approval, update_approval, update_approval_status, create_secret, update_secret,
  delete_secret, update_product_status,
}
use developer_portal_control.Watches.{
  Resource, same_resource, api_key, api_key_request, api_key_approval, api_product, plan_policy,
  auth_policy, http_route, secret, kuadrant,
}

-- A marker: a resource, which determines its API group, a part of it or "", and the verbs.
pub record Rule : Type 0 where
  pub resource : Resource
  pub subresource : String
  pub verbs : List String

abbrev pub rule : Resource → String → List String → Rule
rule resource subresource verbs = record {
  resource = resource;
  subresource = subresource;
  verbs = verbs;
}

abbrev pub read_verbs : List String
read_verbs = "get" ∷ "list" ∷ "watch" ∷ []

abbrev pub all_verbs : List String
all_verbs = "get" ∷ "list" ∷ "watch" ∷ "create" ∷ "update" ∷ "patch" ∷ "delete" ∷ []

abbrev pub status_verbs : List String
status_verbs = "get" ∷ "update" ∷ "patch" ∷ []

abbrev pub request_rules : List Rule
request_rules = rule api_key "" read_verbs ∷ rule api_key_request "" all_verbs ∷ []

abbrev pub key_status_rules : List Rule
key_status_rules =
    rule api_key "" read_verbs
    ∷ rule api_key "status" status_verbs
    ∷ rule api_product "" read_verbs
    ∷ rule api_key_approval "" read_verbs
    ∷ rule api_key_request "" read_verbs
    ∷ rule secret "" read_verbs
    ∷ rule http_route "" read_verbs
    ∷ rule kuadrant "" read_verbs
    ∷ []

abbrev pub secret_rules : List Rule
secret_rules =
    rule api_key "" read_verbs
    ∷ rule api_product "" read_verbs
    ∷ rule secret "" ("get" ∷ "list" ∷ "watch" ∷ "create" ∷ "delete" ∷ [])
    ∷ rule kuadrant "" read_verbs
    ∷ []

abbrev pub product_rules : List Rule
product_rules =
    rule api_product "" all_verbs
    ∷ rule api_product "status" status_verbs
    ∷ rule http_route "" read_verbs
    ∷ rule http_route "status" ("get" ∷ [])
    ∷ rule plan_policy "" read_verbs
    ∷ rule plan_policy "status" ("get" ∷ [])
    ∷ rule auth_policy "" read_verbs
    ∷ rule auth_policy "status" ("get" ∷ [])
    ∷ []

abbrev pub approval_status_rules : List Rule
approval_status_rules =
    rule api_key_approval "" read_verbs
    ∷ rule api_key_approval "status" status_verbs
    ∷ rule api_key_request "" read_verbs
    ∷ []

abbrev pub request_status_rules : List Rule
request_status_rules =
    rule api_key "" read_verbs
    ∷ rule api_key_request "" read_verbs
    ∷ rule api_key_request "status" status_verbs
    ∷ []

abbrev pub auto_approval_rules : List Rule
auto_approval_rules =
    rule api_key_request "" read_verbs
    ∷ rule api_key_approval "" ("get" ∷ "list" ∷ "create" ∷ [])
    ∷ rule api_product "" ("get" ∷ "list" ∷ [])
    ∷ []

abbrev pub approval_rules : List Rule
approval_rules =
    rule api_key_approval "" ("get" ∷ "list" ∷ "watch" ∷ "update" ∷ "patch" ∷ "delete" ∷ [])
    ∷ rule api_key_request "" read_verbs
    ∷ rule api_key_request "finalizers" ("update" ∷ [])
    ∷ []

abbrev pub allows : List Rule → Resource → String → String → Bool
allows rules resource subresource verb =
    any
      (λ r.
        same_resource r.resource resource
        && r.subresource == subresource
        && any (λ v. v == verb) r.verbs)
      rules

-- What the API server asks for.
unfoldable pub is_granted : List Rule → Call → Bool
is_granted rules (create_request r) = allows rules api_key_request "" "create"
is_granted rules (update_request r) = allows rules api_key_request "" "update"
is_granted rules (delete_request r) = allows rules api_key_request "" "delete"
is_granted rules (update_request_status r) = allows rules api_key_request "status" "update"
is_granted rules (update_key_status k) = allows rules api_key "status" "update"
is_granted rules (create_approval a) = allows rules api_key_approval "" "create"
is_granted rules (update_approval a) = allows rules api_key_approval "" "update"
is_granted rules (update_approval_status a) = allows rules api_key_approval "status" "update"
is_granted rules (create_secret s) = allows rules secret "" "create"
is_granted rules (update_secret s) = allows rules secret "" "update"
is_granted rules (delete_secret s) = allows rules secret "" "delete"
is_granted rules (update_product_status p) = allows rules api_product "status" "update"

unfoldable pub within : List Rule → List Call → Bool
unfolding is_granted
within rules [] = true
within rules (w ∷ calls) = is_granted rules w && within rules calls
