-- ===== src/Api/Object.antt =====
-- What every resource carries: metav1.ObjectMeta, as far as the controllers use it, and object keys.
use developer_portal_control.Prelude.{
  ℕ, String, Bool, Option, List, ◌≡◌, ◌==◌, ◌&&◌, ◌↔◌, eq_iff, arith,
}

-- client.ObjectKey
pub record ObjectKey : Type 0 where
  pub namespace : String
  pub name : String

unfoldable pub same_key : ObjectKey → ObjectKey → Bool
same_key a b = a.namespace == b.namespace && a.name == b.name

pub same_key_iff : (a b : ObjectKey) → (same_key a b ≡ Bool.true) ↔ (a ≡ b)
unfolding same_key
same_key_iff a b = ground (arith, eq_iff a.namespace b.namespace, eq_iff a.name b.name)

-- Times are nanoseconds since an epoch that lies before all of them. Resource versions are left
-- out: that a write is refused as a conflict is an answer of the client. A nil map or slice is an
-- empty one.
pub record ObjectMeta : Type 0 where
  pub name : String
  pub namespace : String
  pub uid : String
  pub generation : ℕ
  pub deletion_timestamp : Option ℕ
  pub annotations : List (String × String)
  pub labels : List (String × String)
  -- The UIDs of `OwnerReferences`.
  pub owner_references : List String

-- The metadata of an object that a controller builds.
abbrev pub fresh_metadata : String → String → ObjectMeta
fresh_metadata name namespace = record {
  name = name;
  namespace = namespace;
  uid = "";
  generation = 0;
  deletion_timestamp = Option.none;
  annotations = List.[];
  labels = List.[];
  owner_references = List.[];
}

-- client.ObjectKeyFromObject
abbrev pub key_of : ObjectMeta → ObjectKey
key_of m = record { namespace = m.namespace; name = m.name }
