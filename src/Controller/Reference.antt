-- ===== src/Controller/Reference.antt =====
-- The reference that a child carries leads back to its parent, and to no other cluster.
use admiralty.Base.{
  String, ◌<>◌, ◌≡◌, ◌≢◌, ◌↔◌, refl, true, none, [], ◌∷◌, lookup, insert, ◌==◌, eq_iff, eq_refl,
  arith,
}
use admiralty.Common.{label_key_parent_uid}
use admiralty.Kube.{Meta}
use admiralty.Controller.{
  is_remote_controlled, index_by_remote_controller, add_remote_controller_reference,
  parent_controls_child,
}

module _ (child parent : Meta) (cluster : String) where
  abbrev referring : Meta
  referring = add_remote_controller_reference child parent cluster

  -- A child that refers to a parent in one cluster is controlled from another exactly if the
  -- clusters' names are equal.
  pub is_remote_controlled-add :
      (other : String) → is_remote_controlled referring other ≡ (cluster == other)
  unfolding is_remote_controlled add_remote_controller_reference lookup insert
  is_remote_controlled-add other = refl

  -- A child without an annotation for the parent's UID, once it refers to a parent, is
  -- controlled by an object with a UID exactly if that is the parent's UID.
  parent_controls_child-add :
      (other : Meta)
      → lookup label_key_parent_uid child.annotations ≡ none
      → other.uid ≢ ""
      → (parent_controls_child referring other ≡ true) ↔ (other.uid ≡ parent.uid)
  unfolding parent_controls_child add_remote_controller_reference lookup insert
  parent_controls_child-add other fresh uid =
      ground (arith, eq_iff "" other.uid, eq_iff parent.uid other.uid)

  -- With a parent that has a name and a namespace, the index of remote children files the
  -- child, once it refers to the parent, under the parent's key and no other.
  pub index-add :
      parent.namespace ≢ ""
      → parent.name ≢ ""
      → index_by_remote_controller cluster referring
        ≡ (parent.namespace <> ("/" <> parent.name)) ∷ []
  unfolding index_by_remote_controller add_remote_controller_reference lookup insert
  index-add named spaced =
      ground (arith, eq_iff parent.namespace "", eq_iff parent.name "", eq_refl cluster)
