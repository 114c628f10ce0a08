-- ===== src/Examples/Server.antt =====
-- An API server that remembers: what it shows is computed from the writes, with statuses apart.
use mathlib.Core.Path.{subst}
use developer_portal_control.Prelude.{
  ℕ, String, ◌&&◌, List, some, [], ◌∷◌, map, ◌≡◌, refl, sym, ap, ◌∙◌, inl, inr, ◌⊎◌, arith, In,
  Bool-cases, ◌==◌, eq_iff, if◌then◌else◌,
}
use developer_portal_control.Prelude.Outcome.{Result, ok, err, not_found, ok-injective}
use developer_portal_control.Api.Object.{ObjectKey}
use developer_portal_control.Api.External.{Secret, HttpRoute, AuthPolicy}
use developer_portal_control.Api.Product.{ApiProduct}
use developer_portal_control.Api.Key.{ApiKey}
use developer_portal_control.Api.Request.{ApiKeyRequest}
use developer_portal_control.Api.Approval.{ApiKeyApproval}
use developer_portal_control.Client.{
  Client, Call, Snapshot, create_request, update_request_status, update_key_status, create_approval,
  update_approval, update_approval_status, update_product_status, create_secret,
}
use developer_portal_control.Cluster.Promises.{IsWritten, IsJudged, IsReported, Remembers}
use developer_portal_control.Examples.Cluster.{
  snapshot_with, key_with, consumer_secret, product, scheme, metadata_of, condition_of,
}

-- A write changes the objects of its namespace and name.
abbrev written_to : {A : Type 0} → (A → String) → (A → String) → (A → A → A) → A → A → A
written_to namespace name change v x =
    if namespace v == namespace x && name v == name x then change v x else x

abbrev key_status : ApiKey → ApiKey → ApiKey
key_status v x = record x { status = v.status }

abbrev approval_status : ApiKeyApproval → ApiKeyApproval → ApiKeyApproval
approval_status v x = record x { status = v.status }

abbrev request_status : ApiKeyRequest → ApiKeyRequest → ApiKeyRequest
request_status v x = record x { status = v.status }

-- One key, which nobody has judged yet.
abbrev pub keys_shown : List Call → List ApiKey
keys_shown [] = key_with [] ∷ []
keys_shown (update_key_status v ∷ h) =
    map (written_to (λ k. k.namespace) (λ k. k.name) key_status v) (keys_shown h)
keys_shown (w ∷ h) = keys_shown h

abbrev pub requests_shown : List Call → List ApiKeyRequest
requests_shown [] = []
requests_shown (create_request r ∷ h) = r ∷ requests_shown h
requests_shown (update_request_status v ∷ h) =
    map (written_to (λ k. k.namespace) (λ k. k.name) request_status v) (requests_shown h)
requests_shown (w ∷ h) = requests_shown h

-- A new approval has no status, and a change of an approval leaves its status alone.
abbrev fresh : ApiKeyApproval → ApiKeyApproval
fresh a = record a { status = record { observed_generation = 0; conditions = [] } }

abbrev approval_change : ApiKeyApproval → ApiKeyApproval → ApiKeyApproval
approval_change v x = record v { status = x.status }

abbrev pub approvals_shown : List Call → List ApiKeyApproval
approvals_shown [] = []
approvals_shown (create_approval a ∷ h) = fresh a ∷ approvals_shown h
approvals_shown (update_approval v ∷ h) =
    map (written_to (λ k. k.namespace) (λ k. k.name) approval_change v) (approvals_shown h)
approvals_shown (update_approval_status v ∷ h) =
    map (written_to (λ k. k.namespace) (λ k. k.name) approval_status v) (approvals_shown h)
approvals_shown (w ∷ h) = approvals_shown h

abbrev product_status : ApiProduct → ApiProduct → ApiProduct
product_status v x = record x { status = v.status }

abbrev pub products_shown : List Call → List ApiProduct
products_shown [] = product ∷ []
products_shown (update_product_status v ∷ h) =
    map (written_to (λ k. k.namespace) (λ k. k.name) product_status v) (products_shown h)
products_shown (w ∷ h) = products_shown h

abbrev pub secrets_shown : List Call → List Secret
secrets_shown [] = []
secrets_shown (create_secret s ∷ h) = s ∷ secrets_shown h
secrets_shown (w ∷ h) = secrets_shown h

abbrev pub answer_in : {A : Type 0} → (A → String) → List A → ObjectKey → Result A
answer_in name [] k = err not_found
answer_in name (x ∷ xs) k = if k.name == name x then ok x else answer_in name xs k

-- The route of the product, and its policy.
abbrev route : HttpRoute
route = record {
  metadata = metadata_of "shop" "route" "u8";
  hostnames = "api.example.com" ∷ [];
  parent_refs = [];
  parents = (condition_of "Accepted" "Accepted" "" ∷ []) ∷ [];
}

abbrev pub policy : AuthPolicy
policy = record {
  metadata = metadata_of "shop" "policy" "u9";
  target_ref = record { kind = "HTTPRoute"; name = "route" };
  auth_scheme = some scheme;
  conditions = condition_of "Accepted" "" "" ∷ condition_of "Enforced" "" "" ∷ [];
}

-- Everything else is as in the cluster of the other examples; no secret is deleted here.
abbrev pub shown : List Call → Snapshot
shown h =
    record (snapshot_with (keys_shown h) (approvals_shown h) (secrets_shown h)
      (ok consumer_secret)) {
        list_requests = ok (requests_shown h);
        list_auth_policies = ok (policy ∷ []);
        get_route = answer_in (λ k. k.name) (route ∷ []);
        list_products = ok (products_shown h);
        get_key = answer_in (λ k. k.name) (keys_shown h);
        get_request = answer_in (λ k. k.name) (requests_shown h);
        get_product = answer_in (λ k. k.name) (products_shown h);
        get_secret = answer_in (λ k. k.name) (consumer_secret ∷ secrets_shown h);
      }

-- What is shown at the beginning of a run.
abbrev pub server : ℕ → List Call → Client
server n h = record { snapshot = λ g. shown h; answer = λ g w. ok tt }

In-map :
    {A : Type 0} (f : A → A) (y : A) (xs : List A) → In y (map f xs) → (x : A) × In x xs × (f x ≡ y)
In-map f y [] i = absurd i
In-map f y (x ∷ xs) (inl e) = (x, inl refl, e)
In-map f y (x ∷ xs) (inr i) = let (z, j, e) = In-map f y xs i in (z, inr j, e)

-- What a write leaves of an object, by whether it is the one that is written.
written-cases :
    {A : Type 0} (namespace name : A → String) (change : A → A → A) (v x y : A)
    → written_to namespace name change v x ≡ y
    → ((namespace v ≡ namespace x) × (name v ≡ name x) × (change v x ≡ y)) ⊎ (x ≡ y)
written-cases namespace name change v x y e =
    elim (Bool-cases (namespace v == namespace x && name v == name x)) [
      | inl t ↦ inl (
        ground (arith, eq_iff (namespace v) (namespace x), eq_iff (name v) (name x)),
        ground (arith, eq_iff (namespace v) (namespace x), eq_iff (name v) (name x)),
        rw t at e,
      )
      | inr f ↦ inr (rw f at e)
    ]

-- A status is empty or was written.
abbrev KeyReported : List Call → ApiKey → Type 0
KeyReported h k = (k.status.conditions ≡ []) ⊎ IsReported h k

key_later : (w : Call) (h : List Call) (k : ApiKey) → KeyReported h k → KeyReported (w ∷ h) k
key_later w h k (inl e) = inl e
key_later w h k (inr (v, i, p, q, r)) = inr (v, inr i, p, q, r)

keys_reported : (h : List Call) (k : ApiKey) → In k (keys_shown h) → KeyReported h k
keys_reported [] k (inl e) = inl (ap (λ (x : ApiKey). x.status.conditions) (sym e))
keys_reported [] k (inr i) = absurd i
keys_reported (update_key_status v ∷ h) k i =
    let (x, j, e) =
      In-map (written_to (λ k. k.namespace) (λ k. k.name) key_status v) k (keys_shown h) i in
    elim (written-cases (λ k. k.namespace) (λ k. k.name) key_status v x k e) [
      | inl (n, m, p) ↦ inr (
        v,
        inl refl,
        n ∙ ap (λ (y : ApiKey). y.namespace) p,
        m ∙ ap (λ (y : ApiKey). y.name) p,
        ap (λ (y : ApiKey). y.status) p,
      )
      | inr p ↦
          subst (KeyReported (update_key_status v ∷ h)) p (key_later _ h x (keys_reported h x j))
    ]
keys_reported (w ∷ h) k i = key_later w h k (keys_reported h k i)

abbrev IsRecorded : List Call → ApiKeyApproval → Type 0
IsRecorded h a = IsWritten h a × ((a.status.conditions ≡ []) ⊎ IsJudged h a)

IsJudged-later :
    (w : Call) (h : List Call) (a : ApiKeyApproval)
    → (a.status.conditions ≡ []) ⊎ IsJudged h a
    → (a.status.conditions ≡ []) ⊎ IsJudged (w ∷ h) a
IsJudged-later w h a (inl e) = inl e
IsJudged-later w h a (inr (v, i, p, q, r)) = inr (v, inr i, p, q, r)

IsWritten-later :
    (w : Call) (h : List Call) (a : ApiKeyApproval) → IsWritten h a → IsWritten (w ∷ h) a
IsWritten-later w h a (v, inl i, same) = (v, inl (inr i), same)
IsWritten-later w h a (v, inr i, same) = (v, inr (inr i), same)

later : (w : Call) (h : List Call) (a : ApiKeyApproval) → IsRecorded h a → IsRecorded (w ∷ h) a
later w h a (x, y) = (IsWritten-later w h a x, IsJudged-later w h a y)

approvals_recorded :
    (h : List Call) (a : ApiKeyApproval) → In a (approvals_shown h) → IsRecorded h a
approvals_recorded [] a i = absurd i
approvals_recorded (create_approval v ∷ h) a (inl e) =
    subst (IsRecorded (create_approval v ∷ h)) e ((v, inl (inl refl), (refl, refl, refl)), inl refl)
approvals_recorded (create_approval v ∷ h) a (inr i) = later _ h a (approvals_recorded h a i)
approvals_recorded (update_approval v ∷ h) a i =
    let (x, j, e) =
      In-map (written_to (λ k. k.namespace) (λ k. k.name) approval_change v) a (approvals_shown h)
        i in
    let before = later (update_approval v) h x (approvals_recorded h x j) in
    elim (written-cases (λ k. k.namespace) (λ k. k.name) approval_change v x a e) [
      | inl (n, m, p) ↦
          subst (IsRecorded (update_approval v ∷ h)) p
            ((v, inr (inl refl), (refl, refl, refl)), judged_as v x n m before.1)
      | inr p ↦ subst (IsRecorded (update_approval v ∷ h)) p before
    ]
  where
    judged_as :
        (v x : ApiKeyApproval)
        → v.namespace ≡ x.namespace
        → v.name ≡ x.name
        → (x.status.conditions ≡ []) ⊎ IsJudged (update_approval v ∷ h) x
        → (x.status.conditions ≡ []) ⊎ IsJudged (update_approval v ∷ h) (approval_change v x)
    judged_as v x n m (inl c) = inl c
    judged_as v x n m (inr (u, k, p, q, r)) = inr (u, k, p ∙ sym n, q ∙ sym m, r)
approvals_recorded (update_approval_status v ∷ h) a i =
    let (x, j, e) =
      In-map (written_to (λ k. k.namespace) (λ k. k.name) approval_status v) a (approvals_shown h)
        i in
    let before = later (update_approval_status v) h x (approvals_recorded h x j) in
    elim (written-cases (λ k. k.namespace) (λ k. k.name) approval_status v x a e) [
      | inl (n, m, p) ↦
          subst (IsRecorded (update_approval_status v ∷ h)) p
            ((before.0.0, before.0.1, before.0.2), inr (v, inl refl, n, m, refl))
      | inr p ↦ subst (IsRecorded (update_approval_status v ∷ h)) p before
    ]
approvals_recorded (w ∷ h) a i = later w h a (approvals_recorded h a i)

pub server-Remembers : (n : ℕ) (h : List Call) → Remembers h ((server n h).snapshot [])
server-Remembers n h = record {
  approvals_written = λ as' a l i. (approvals_recorded h a (rw (← ok-injective l) at i)).0;
  validity_written = λ as' a l i. (approvals_recorded h a (rw (← ok-injective l) at i)).1;
  status_written = λ ks k l i. keys_reported h k (rw (← ok-injective l) at i);
}
