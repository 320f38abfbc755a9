-- ===== src/Agent/Examples.antt =====
-- Two namespaces' targets, and the labels of a virtual node.
use admiralty.Base.{
  arith, Bool, true, Option, ◌≡◌, refl, false, none, some, List, [], ◌∷◌, lookup, insert, String,
}
use admiralty.Common.{label_key_target_name}
use admiralty.Name.{Bytes, codes, from_parts, hash_required, non_empty, join}
use admiralty.Agent.Names.{finalizer_name-injective}
use admiralty.Agent.{
  TargetObject, virtual_node_name, finalizer_name, complete, is_valid, add_each, new_from_crd,
  Target, base_labels,
}
use admiralty.Agent.Finalizers.{finalizers_in}

abbrev target : String → String → Target
target namespace finalizer = record {
  name = "t";
  self = false;
  namespace = namespace;
  excluded_labels_regexp = none;
  virtual_node_name = "admiralty-t";
  finalizer = finalizer;
}

abbrev targets : List Target
targets = target "a" "f1" ∷ target "b" "f2" ∷ target "a" "f3" ∷ []

finds : finalizers_in "a" targets ≡ "f1" ∷ "f3" ∷ []
finds = refl

names_target : lookup label_key_target_name (base_labels "a" "t") ≡ some "t"
unfolding lookup base_labels insert
names_target = refl

-- A cluster target of this cluster, and two that are not valid.
abbrev object : Bool → Option Bool → TargetObject
object self kubeconfig = record {
  name = "a";
  namespace = "";
  self = self;
  kubeconfig = kubeconfig;
  excluded_labels_regexp = none;
}

abbrev to_text : Bytes → String
to_text s = "a"

configured :
    new_from_crd
      (λ s. s)
      to_text
      (object true none ∷ object true (some true) ∷ [])
      (object false (some false) ∷ [])
    ≡ some (
        record {
          name = "a";
          self = true;
          namespace = "";
          excluded_labels_regexp = none;
          virtual_node_name = "a";
          finalizer = "multicluster.admiralty.io/a";
        }
        ∷ [])
unfolding new_from_crd add_each is_valid complete virtual_node_name finalizer_name from_parts
    hash_required non_empty join
configured = refl

finalizer_name-injective_example : (codes "ns" ≡ codes "ns") × (codes "a" ≡ codes "a")
finalizer_name-injective_example =
    finalizer_name-injective (λ s. s) (codes "ns") (codes "a") (codes "ns") (codes "a")
      (omega arith) (omega arith) (omega arith) (omega arith) refl refl (omega arith) (omega arith)
      refl
