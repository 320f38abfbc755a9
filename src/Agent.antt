-- ===== src/Agent.antt =====
-- pkg/config/agent/agent.go and pkg/model/virtualnode/model.go: the targets of the agent's
-- configuration, their finalizers, and the labels of their virtual nodes. A client's configuration is
-- no part of the model: of the custom resources it matters only whether it could be read.
pub mod Finalizers
pub mod Names
mod Examples
use admiralty.Base.{
  not, ◌&&◌, String, ◌<>◌, Bool, true, false, Option, none, some, List, [], ◌∷◌, ◌++◌, Map, lookup,
  insert, is_some, ◌==◌, if◌then◌else◌,
}
use admiralty.Name.{Bytes, codes, short, long, from_parts}
use admiralty.Common.{
  key_prefix, label_and_taint_key_virtual_kubelet_provider, virtual_kubelet_provider_name,
  label_key_cluster_target_name, label_key_target_namespace, label_key_target_name,
}

pub record Target : Type 0 where
  pub name : String
  pub self : Bool
  pub namespace : String
  pub excluded_labels_regexp : Option String
  pub virtual_node_name : String
  pub finalizer : String

-- A Target, or a ClusterTarget, which has no namespace; `kubeconfig` says whether its secret gives a
-- client's configuration.
pub record TargetObject : Type 0 where
  pub name : String
  pub namespace : String
  pub self : Bool
  pub kubeconfig : Option Bool
  pub excluded_labels_regexp : Option String

module _ (digest : Bytes → Bytes) where
  -- complete, over bytes and without the prefix of the finalizer
  pub virtual_node_name : Bytes → Bytes → Option Bytes
  virtual_node_name namespace name =
      from_parts digest long (0 ∷ []) (1 ∷ []) (codes "admiralty" ∷ namespace ∷ name ∷ [])

  pub finalizer_name : Bytes → Bytes → Option Bytes
  finalizer_name namespace name = from_parts digest short [] (0 ∷ []) (namespace ∷ name ∷ [])

  module _ (text : Bytes → String) where
    -- A panic of `FromParts` ends the program: there is no configuration.
    abbrev named : Option Bytes → Option Bytes → TargetObject → Option Target
    named none finalizer t = none
    named (some node) none t = none
    named (some node) (some finalizer) t = some (record {
      name = t.name;
      self = t.self;
      namespace = t.namespace;
      excluded_labels_regexp = t.excluded_labels_regexp;
      virtual_node_name = text node;
      finalizer = key_prefix <> text finalizer;
    })

    pub complete : TargetObject → Option Target
    unfolding virtual_node_name finalizer_name
    complete t =
        named (virtual_node_name (codes t.namespace) (codes t.name))
          (finalizer_name (codes t.namespace) (codes t.name)) t

    -- self XOR kubeconfigSecret != nil, and the secret can be read
    pub is_valid : TargetObject → Bool
    is_valid t = elim t.kubeconfig [ none ↦ t.self | some readable ↦ not t.self && readable ]

    -- The loops of NewFromCRD, over cluster targets and then over targets.
    pub add_each : List TargetObject → Option (List Target)
    unfolding complete is_valid
    add_each [] = some []
    add_each (t ∷ ts) =
        let rest = add_each ts in
        if is_valid t
        then (elim (complete t) [
          | none ↦ none
          | some target ↦ elim rest [ none ↦ none | some targets ↦ some (target ∷ targets) ]
        ])
        else rest

    pub new_from_crd : List TargetObject → List TargetObject → Option (List Target)
    unfolding add_each
    new_from_crd cluster_targets targets = add_each (cluster_targets ++ targets)

-- GetKnownFinalizers
pub get_known_finalizers : List Target → List String
get_known_finalizers [] = []
get_known_finalizers (target ∷ targets) = target.finalizer ∷ get_known_finalizers targets

-- m[k] for a map of slices: nil where the key is missing
abbrev pub get_all : String → Map (List String) → List String
get_all k m = elim (lookup k m) [ none ↦ [] | some fs ↦ fs ]

-- The loop of GetKnownFinalizersByNamespace.
pub add_finalizers : Map (List String) → List Target → Map (List String)
add_finalizers known [] = known
add_finalizers known (target ∷ targets) =
    add_finalizers
      (insert target.namespace (get_all target.namespace known ++ (target.finalizer ∷ [])) known)
      targets

pub get_known_finalizers_by_namespace : List Target → Map (List String)
unfolding add_finalizers
get_known_finalizers_by_namespace targets = add_finalizers [] targets

-- BaseLabels
unfoldable pub base_labels : String → String → Map String
base_labels target_namespace target_name =
    let l : Map String =
      ("type", "virtual-kubelet")
      ∷ (label_and_taint_key_virtual_kubelet_provider, virtual_kubelet_provider_name)
      ∷ ("kubernetes.io/role", "cluster")
      ∷ ("alpha.service-controller.kubernetes.io/exclude-balancer", "true")
      ∷ ("node.kubernetes.io/exclude-from-external-load-balancers", "true")
      ∷ [] in
    if target_namespace == ""
    then insert label_key_cluster_target_name target_name l
    else insert label_key_target_name target_name
        (insert label_key_target_namespace target_namespace l)
