-- ===== src/Controller.antt =====
-- pkg/controller: what the controllers share. The work loop is in Queue; here are the handlers of
-- informer events, the reference from a child in a target cluster to its parent in the source
-- cluster, and finalizers. `metav1.GetControllerOf` and `cache.MetaNamespaceKeyFunc` are
-- parameters, and so is the lister behind `getOwner`.
pub mod Queue
pub mod Reference
pub mod Finalizers
pub mod Events
mod Examples
use admiralty.Base.{
  ℕ, zero, suc, String, ◌<>◌, Bool, true, false, ◌&&◌, ◌||◌, Option, none, some, List, [], ◌∷◌, Map,
  lookup, insert, get, Result, ok, err, Error, contains, ◌==◌, if◌then◌else◌,
}
use admiralty.Common.{
  label_key_parent_uid, label_key_parent_cluster_name, annotation_key_parent_name,
  annotation_key_parent_namespace,
}
use admiralty.Kube.{Meta, OwnerReference}

-- errors.go
abbrev optimistic_lock_error_msg : String
optimistic_lock_error_msg =
    "the object has been modified; please apply your changes to the latest version and try again"

pub is_optimistic_lock_error : Error → Bool
is_optimistic_lock_error e = contains e.message optimistic_lock_error_msg

-- An event of an informer. The last object known before a deletion that was missed comes in a
-- tombstone.
pub data Event {ℓ} (A : Type ℓ) : Type ℓ where
  added : A → Event A
  updated : A → A → Event A
  deleted : A → Event A
  tombstone : A → Event A

-- handlers.go: the object that the handler is called with, if it is called
unfoldable pub handle_add_update_with {ℓ} : {A : Type ℓ} → Event A → Option A
handle_add_update_with (added o) = some o
handle_add_update_with (updated old new) = some new
handle_add_update_with (deleted o) = none
handle_add_update_with (tombstone o) = none

unfoldable pub handle_all_with {ℓ} : {A : Type ℓ} → Event A → Option A
handle_all_with (added o) = some o
handle_all_with (updated old new) = some new
handle_all_with (deleted o) = some o
handle_all_with (tombstone o) = some o

pub is_remote_controlled : Meta → String → Bool
is_remote_controlled object parent_cluster_name =
    elim (lookup label_key_parent_cluster_name object.labels) [
      | none ↦ false
      | some v ↦ v == parent_cluster_name
    ]

abbrev or_default : String → String → String
or_default s d = if s == "" then d else s

parent_key : Meta → String
parent_key child =
    let parent_namespace =
      or_default (get annotation_key_parent_namespace child.annotations) child.namespace in
    let parent_name = or_default (get annotation_key_parent_name child.annotations) child.name in
    if parent_namespace == "" then parent_name else parent_namespace <> ("/" <> parent_name)

-- IndexByRemoteController
unfoldable pub index_by_remote_controller : String → Meta → List String
unfolding is_remote_controlled parent_key
index_by_remote_controller parent_cluster_name object =
    if is_remote_controlled object parent_cluster_name then parent_key object ∷ [] else []

-- EnqueueRemoteController: the key that is put on the queue, if any
pub enqueue_remote_controller : String → Meta → Option String
unfolding is_remote_controlled parent_key
enqueue_remote_controller parent_cluster_name object =
    if is_remote_controlled object parent_cluster_name then some (parent_key object) else none

unfoldable pub add_remote_controller_reference : Meta → Meta → String → Meta
add_remote_controller_reference child parent parent_cluster_name = record child {
  labels =
      insert label_key_parent_cluster_name parent_cluster_name
        (insert label_key_parent_uid parent.uid child.labels);
  annotations =
      insert annotation_key_parent_name parent.name
        (insert annotation_key_parent_namespace parent.namespace child.annotations);
}

-- The UID is compared with an annotation and with a label of the same key.
unfoldable pub parent_controls_child : Meta → Meta → Bool
parent_controls_child child parent =
    (get label_key_parent_uid child.annotations == parent.uid)
    || (get label_key_parent_uid child.labels == parent.uid)

-- `none` stands for the index -1
unfoldable pub has_finalizer : List String → String → Option ℕ
has_finalizer [] finalizer = none
has_finalizer (f ∷ finalizers) finalizer =
    let rest = has_finalizer finalizers finalizer in
    if f == finalizer then some 0 else elim rest [ none ↦ none | some i ↦ some (suc i) ]

module _ (controller_of : Meta → Option OwnerReference) (namespace_key : Meta → Result String) where
  -- EnqueueObject: an object with no key is reported and not queued
  pub enqueue_object : Meta → Option String
  enqueue_object object = elim (namespace_key object) [ err e ↦ none | ok key ↦ some key ]

  pub enqueue_controller : String → (String → String → Result Meta) → Meta → Option String
  unfolding enqueue_object
  enqueue_controller owner_kind get_owner object = elim (controller_of object) [
    | none ↦ none
    | some owner_ref ↦
        if owner_ref.kind == owner_kind
        then (elim (get_owner object.namespace owner_ref.name) [
          | err e ↦ none
          | ok owner ↦ enqueue_object owner
        ])
        else none
  ]
