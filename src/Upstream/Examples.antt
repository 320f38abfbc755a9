-- ===== src/Upstream/Examples.antt =====
-- A target whose summary has the label of another virtual kubelet's provider.
use admiralty.Base.{String, ◌≡◌, refl, false, none, some, [], ◌∷◌, Map, or_else, lookup, insert}
use admiralty.Common.{label_and_taint_key_virtual_kubelet_provider}
use admiralty.Agent.{Target, base_labels}
use admiralty.Upstream.{add_labels, reconcile_labels}
use admiralty.Upstream.Labels.{included, lookup-reconcile_labels}

abbrev target : Target
target = record {
  name = "t";
  self = false;
  namespace = "ns";
  excluded_labels_regexp = none;
  virtual_node_name = "admiralty-ns-t";
  finalizer = "multicluster.admiralty.io/ns-t";
}

abbrev labels : Map String
labels = (label_and_taint_key_virtual_kubelet_provider, "azure") ∷ ("os", "linux") ∷ []

takes_provider :
    lookup label_and_taint_key_virtual_kubelet_provider (reconcile_labels target none labels)
    ≡ some "azure"
unfolding reconcile_labels add_labels lookup insert
takes_provider = refl

lookup-reconcile_labels_example :
    lookup label_and_taint_key_virtual_kubelet_provider (reconcile_labels target none labels)
    ≡ or_else
        (lookup label_and_taint_key_virtual_kubelet_provider (included none labels))
        (lookup label_and_taint_key_virtual_kubelet_provider (base_labels "ns" "t"))
lookup-reconcile_labels_example =
    lookup-reconcile_labels target none label_and_taint_key_virtual_kubelet_provider labels
