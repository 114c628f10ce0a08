-- ===== src/Helper.antt =====
-- internal/controller/devportal_helper.go: the lists that a reconcile puts in its context, the name
-- of a key's request, and the namespace of Kuadrant.
use developer_portal_control.Prelude.{String, Option, none, some, List, [], ◌∷◌, ◌+++◌}
use developer_portal_control.Prelude.Outcome.{Result, ok, ◌>>=◌}
use developer_portal_control.Api.Object.{ObjectKey}
use developer_portal_control.Api.External.{Kuadrant, AuthPolicy, PlanPolicy}
use developer_portal_control.Api.Key.{ApiKey}
use developer_portal_control.Api.Request.{ApiKeyRequest}
use developer_portal_control.Api.Approval.{ApiKeyApproval}
use developer_portal_control.Deps.{Texts}
use developer_portal_control.Client.{Snapshot}

-- The values that a context carries, each under a key of its own.
pub record Context : Type 0 where
  pub api_keys : Option (List ApiKey)
  pub api_key_requests : Option (List ApiKeyRequest)
  pub api_key_approvals : Option (List ApiKeyApproval)
  pub plan_policies : Option (List PlanPolicy)
  pub auth_policies : Option (List AuthPolicy)

abbrev pub background : Context
background = record {
  api_keys = none;
  api_key_requests = none;
  api_key_approvals = none;
  plan_policies = none;
  auth_policies = none;
}

abbrev pub with_api_keys : Context → List ApiKey → Context
with_api_keys ctx items = record ctx { api_keys = some items }

abbrev pub with_api_key_requests : Context → List ApiKeyRequest → Context
with_api_key_requests ctx items = record ctx { api_key_requests = some items }

abbrev pub with_api_key_approvals : Context → List ApiKeyApproval → Context
with_api_key_approvals ctx items = record ctx { api_key_approvals = some items }

-- A list that is not in the context is read as an empty one.
abbrev pub items_or_empty : {A : Type 0} → Option (List A) → List A
items_or_empty none = []
items_or_empty (some items) = items

-- types.NamespacedName as text.
abbrev pub key_text : ObjectKey → String
key_text k = k.namespace +++ "/" +++ k.name

-- APIKeyRequestName
unfoldable pub api_key_request_name : Texts → ApiKey → String
api_key_request_name texts key =
    key.namespace
    +++ "-"
    +++ key.name
    +++ "-"
    +++ texts.hash_suffix (key.namespace +++ "/" +++ key.name)

abbrev pub first_namespace : List Kuadrant → String
first_namespace [] = ""
first_namespace (k ∷ ks) = k.namespace

-- GetKuadrantNamespace
unfoldable pub get_kuadrant_namespace : Snapshot → Result String
get_kuadrant_namespace s = do items ← s.list_kuadrants; ok (first_namespace items)
