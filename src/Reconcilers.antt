-- ===== src/Reconcilers.antt =====
-- internal/reconcilers/base_reconcilers.go and base_mutator.go, for any kind of resource.
use developer_portal_control.Prelude.{
  String, Bool, false, ◌||◌, none, some, List, [], ◌∷◌, ◌==◌, if◌then◌else◌, is_some,
}
use developer_portal_control.Prelude.Outcome.{Result, ok, err, is_not_found}
use developer_portal_control.Lo.{lookup}
use developer_portal_control.Api.Object.{ObjectMeta, ObjectKey, key_of}
use developer_portal_control.Client.{Client, Snapshot, Call}
use developer_portal_control.Client.Run.{Run, perform, done, fail}

-- What the client does for resources of type T.
pub record Kind (T : Type 0) : Type 0 where
  pub metadata : T → ObjectMeta
  pub with_annotations : T → List (String × String) → T
  pub get : Snapshot → ObjectKey → Result T
  pub create : T → Call
  pub update : T → Call
  pub delete : T → Call

abbrev pub delete_tag_annotation : String
delete_tag_annotation = "kuadrant.io/delete"

-- MutateFn: from the existing and the desired object, the existing one as it is changed, and
-- whether to update it.
abbrev pub MutateFn : Type 0 → Type 0
MutateFn T = T → T → T × Bool

module _ {T : Type 0} (k : Kind T) where
  -- TagObjectToDelete; an entry of a map hides the later ones with its key.
  unfoldable pub tag_object_to_delete : T → T
  tag_object_to_delete obj =
      k.with_annotations obj ((delete_tag_annotation, "true") ∷ (k.metadata obj).annotations)

  -- IsObjectTaggedToDelete
  unfoldable pub is_object_tagged_to_delete : T → Bool
  is_object_tagged_to_delete obj =
      elim (lookup delete_tag_annotation (k.metadata obj).annotations) [
        | none ↦ false
        | some annotation ↦ annotation == "true"
      ]

  -- CreateResource, UpdateResource and DeleteResource
  unfoldable pub create_resource : Client → T → Run (Unit {0})
  create_resource c obj = perform c (k.create obj)

  unfoldable pub update_resource : Client → T → Run (Unit {0})
  update_resource c obj = perform c (k.update obj)

  unfoldable pub delete_resource : Client → T → Run (Unit {0})
  delete_resource c obj =
      if is_some (k.metadata obj).deletion_timestamp then done tt else perform c (k.delete obj)

  unfoldable pub update_if : Client → T × Bool → Run (Unit {0})
  unfolding update_resource
  update_if c (obj, update) = if update then update_resource c obj else done tt

  -- ReconcileResource, by the answer to the read.
  unfoldable pub reconcile_read : Client → T → MutateFn T → Result T → Run (Unit {0})
  unfolding create_resource delete_resource update_if
  reconcile_read c desired mutate (err e) =
      if is_not_found e
      then (if is_object_tagged_to_delete desired then done tt else create_resource c desired)
      else fail e
  reconcile_read c desired mutate (ok existing) =
      if is_object_tagged_to_delete desired
      then delete_resource c desired
      else update_if c (mutate existing desired)

  unfoldable pub reconcile_resource : Client → T → MutateFn T → Run (Unit {0})
  unfolding reconcile_read
  reconcile_resource c desired mutate h =
      reconcile_read c desired mutate (k.get (c.snapshot h) (key_of (k.metadata desired))) h

module _ {T : Type 0} where
  abbrev pub create_only_mutator : MutateFn T
  create_only_mutator existing desired = (existing, false)

  -- Mutator: each function changes the object that the one before has left.
  unfoldable pub mutator_from : List (MutateFn T) → Bool → MutateFn T
  mutator_from [] update existing desired = (existing, update)
  mutator_from (opt ∷ opts) update existing desired =
      mutator_from opts (update || (opt existing desired).1) (opt existing desired).0 desired

  unfoldable pub mutator : List (MutateFn T) → MutateFn T
  unfolding mutator_from
  mutator opts = mutator_from opts false
