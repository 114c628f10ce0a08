-- ===== src/Watches.antt =====
-- SetupWithManager and enqueueClass of the controllers in internal/controller: the kinds whose
-- changes have a controller reconcile, and what it is asked to reconcile then.
pub mod Reads
use developer_portal_control.Prelude.{
  String, Bool, true, false, Option, none, some, List, [], ◌∷◌, any, if◌then◌else◌,
}
use developer_portal_control.Prelude.Outcome.{Error, Result, err, other}
use developer_portal_control.Api.Object.{ObjectKey}
use developer_portal_control.Client.{Client, Snapshot}

-- The kinds of object that the controllers read.
pub data Resource : Type 0 where
  api_key api_key_request api_key_approval api_product plan_policy auth_policy http_route secret
        kuadrant :
      Resource

abbrev pub same_resource : Resource → Resource → Bool
same_resource api_key api_key = true
same_resource api_key_request api_key_request = true
same_resource api_key_approval api_key_approval = true
same_resource api_product api_product = true
same_resource plan_policy plan_policy = true
same_resource auth_policy auth_policy = true
same_resource http_route http_route = true
same_resource secret secret = true
same_resource kuadrant kuadrant = true
same_resource _ _ = false

-- What ctrl.NewControllerManagedBy is told: the kind in For, those in Watches, the name, and what
-- enqueueClass returns, whichever object of a watched kind has changed.
pub record Setup : Type 0 where
  pub primary : Option Resource
  pub watches : List Resource
  pub name : String
  pub enqueue_class : List ObjectKey

-- One request, for the whole class.
abbrev pub class_request : String → List ObjectKey
class_request name = record { namespace = ""; name = name } ∷ []

abbrev pub product_setup : Setup
product_setup = record {
  primary = none;
  watches = api_product ∷ plan_policy ∷ auth_policy ∷ http_route ∷ [];
  name = "apiproduct";
  enqueue_class = class_request "apiproduct";
}

abbrev pub request_setup : Setup
request_setup = record {
  primary = none;
  watches = api_product ∷ api_key ∷ api_key_request ∷ [];
  name = "apikeyrequest";
  enqueue_class = class_request "apikeyrequest";
}

abbrev pub request_status_setup : Setup
request_status_setup = record {
  primary = none;
  watches = api_product ∷ api_key ∷ [];
  name = "apikeyrequeststatus";
  enqueue_class = class_request "apikeyrequeststatus";
}

abbrev pub key_status_setup : Setup
key_status_setup = record {
  primary = none;
  watches = api_key ∷ api_product ∷ api_key_request ∷ api_key_approval ∷ http_route ∷ secret ∷ [];
  name = "apikey-status";
  enqueue_class = class_request "apikey-status";
}

abbrev pub approval_setup : Setup
approval_setup = record {
  primary = none;
  watches = api_key_approval ∷ api_key_request ∷ [];
  name = "apikeyapproval";
  enqueue_class = class_request "apikeyapproval";
}

abbrev pub approval_status_setup : Setup
approval_status_setup = record {
  primary = none;
  watches = api_key_approval ∷ api_key_request ∷ [];
  name = "apikeyapproval-status";
  enqueue_class = class_request "apikeyapproval-status";
}

abbrev pub auto_approval_setup : Setup
auto_approval_setup = record {
  primary = some api_key_request;
  watches = [];
  name = "apikeyrequest-autoapproval";
  enqueue_class = [];
}

abbrev pub secret_setup : Setup
secret_setup = record {
  primary = none;
  watches = api_key ∷ [];
  name = "apikey-secret";
  enqueue_class = class_request "apikey-secret";
}

-- The kinds whose changes have the controller reconcile.
abbrev pub triggers : Setup → List Resource
triggers setup = elim setup.primary [ none ↦ setup.watches | some r ↦ r ∷ setup.watches ]

-- What the read of a kind is answered with that is not in the list.
abbrev pub not_watched : Error
not_watched = other "not watched"

-- The reads of the kinds in the list; a read of any other is refused.
abbrev pub allowed : {A : Type 0} → List Resource → Resource → Result A → Result A
allowed kinds kind r = if any (same_resource kind) kinds then r else err not_watched

abbrev pub only : List Resource → Snapshot → Snapshot
only kinds s = record {
  list_keys = allowed kinds api_key s.list_keys;
  list_requests = allowed kinds api_key_request s.list_requests;
  list_approvals = allowed kinds api_key_approval s.list_approvals;
  list_products = allowed kinds api_product s.list_products;
  list_plan_policies = allowed kinds plan_policy s.list_plan_policies;
  list_auth_policies = allowed kinds auth_policy s.list_auth_policies;
  list_kuadrants = allowed kinds kuadrant s.list_kuadrants;
  list_secrets = λ n l v. allowed kinds secret (s.list_secrets n l v);
  list_approvals_in = λ n. allowed kinds api_key_approval (s.list_approvals_in n);
  get_key = λ k. allowed kinds api_key (s.get_key k);
  get_request = λ k. allowed kinds api_key_request (s.get_request k);
  get_product = λ k. allowed kinds api_product (s.get_product k);
  get_route = λ k. allowed kinds http_route (s.get_route k);
  get_secret = λ k. allowed kinds secret (s.get_secret k);
  ranges = s.ranges;
}

abbrev pub restricted : List Resource → Client → Client
restricted kinds c = record { snapshot = λ h. only kinds (c.snapshot h); answer = c.answer }
