-- ===== src/Webhook.antt =====
-- pkg/webhooks/proxypod/proxypod.go: the mutating webhook makes a proxy pod of an elected pod. An error
-- rejects the pod, and what was changed before is lost with it, so a result is enough. YAML is a
-- parameter, in the record `Mutator`.
pub mod Idempotent
pub mod Scheduling
mod Examples
use admiralty.Base.{
  String, Bool, true, false, not, Option, none, some, List, [], ◌∷◌, ◌++◌, keep, Map, lookup,
  insert, copy_into, has_key, if◌then◌else◌, Result, ok, err,
}
use admiralty.Common.{
  is_ours, annotation_key_elect, annotation_key_source_pod_manifest,
  annotation_key_proxy_pod_scheduling_constraints,
  annotation_key_use_constraints_from_spec_for_proxy_pod_scheduling,
  label_and_taint_key_virtual_kubelet_provider, virtual_kubelet_provider_name, proxy_scheduler_name,
  label_key_has_finalizer,
}
use admiralty.Kube.{Meta, Toleration, PodSpec, Pod}
use admiralty.Agent.{get_all}

pub record Mutator : Type 0 where
  pub known_finalizers : Map (List String)
  pub marshal : Pod → Result String
  pub unmarshal_strict : String → Result Pod
  pub unmarshal_spec_strict : String → Result PodSpec

abbrev pub base_selector : Map String
base_selector = (label_and_taint_key_virtual_kubelet_provider, virtual_kubelet_provider_name) ∷ []

-- The second key is corev1.TaintNodeNetworkUnavailable.
abbrev pub base_tolerations : List Toleration
base_tolerations =
    record {
      key = label_and_taint_key_virtual_kubelet_provider;
      operator = "";
      value = virtual_kubelet_provider_name;
      effect = "";
    }
    ∷ record {
      key = "node.kubernetes.io/network-unavailable";
      operator = "Exists";
      value = "";
      effect = "";
    }
    ∷ []

-- The scheduling of the proxy pod, with the constraints that are given.
pub constrain : Option PodSpec → PodSpec → PodSpec
constrain none spec = record spec {
  node_selector = base_selector;
  tolerations = base_tolerations;
  affinity = none;
  topology_spread_constraints = [];
}
constrain (some given) spec = record spec {
  node_selector = copy_into base_selector given.node_selector;
  tolerations = base_tolerations ++ given.tolerations;
  affinity = given.affinity;
  topology_spread_constraints = given.topology_spread_constraints;
}

-- The finalizers of other programs are kept, and this program's are those known now.
abbrev pub is_foreign : String → Bool
is_foreign f = not (is_ours f)

abbrev pub new_finalizers : List String → List String → List String
new_finalizers known finalizers = keep is_foreign finalizers ++ known

module _ (m : Mutator) where
  -- Constraints that the user gives for the proxy pod, or those of the source pod, or none.
  unfoldable pub constraints : Pod → Map String → Result (Option PodSpec)
  constraints src_pod annotations =
      elim (lookup annotation_key_proxy_pod_scheduling_constraints annotations) [
        | some s ↦ elim (m.unmarshal_spec_strict s) [ ok spec ↦ ok (some spec) | err e ↦ err e ]
        | none ↦ ok (
            if has_key annotation_key_use_constraints_from_spec_for_proxy_pod_scheduling annotations
            then some src_pod.spec
            else none)
      ]

  unfoldable pub finish : Pod → Option PodSpec → Pod
  unfolding constrain
  finish pod given = record pod {
    meta = record pod.meta {
      labels = insert label_key_has_finalizer "true" pod.meta.labels;
      finalizers =
          new_finalizers (get_all pod.meta.namespace m.known_finalizers) pod.meta.finalizers;
    };
    spec = record (constrain given pod.spec) {
      scheduler_name = proxy_scheduler_name;
      termination_grace_period_seconds = some 0;
    };
  }

  abbrev pub with_constraints : Pod → Result (Option PodSpec) → Result Pod
  with_constraints pod (err e) = err e
  with_constraints pod (ok given) = ok (finish pod given)

  -- What follows once the source pod is known.
  abbrev pub mutate : Pod → Pod → Result Pod
  mutate src_pod pod = with_constraints pod (constraints src_pod pod.meta.annotations)

  abbrev pub save_manifest : Pod → Result String → Result Pod
  save_manifest pod (err e) = err e
  save_manifest pod (ok manifest) = mutate pod (record pod {
    meta = record pod.meta {
      annotations = insert annotation_key_source_pod_manifest manifest pod.meta.annotations;
    };
  })

  abbrev pub read_manifest : Pod → Result Pod → Result Pod
  read_manifest pod (err e) = err e
  read_manifest pod (ok src_pod) = mutate src_pod pod

  abbrev pub elected : Pod → Option String → Result Pod
  elected pod none = save_manifest pod (m.marshal pod)
  elected pod (some manifest) = read_manifest pod (m.unmarshal_strict manifest)

  -- Default
  unfoldable pub default : Pod → Result Pod
  unfolding constraints finish
  default pod =
      if has_key annotation_key_elect pod.meta.annotations
      then elected pod (lookup annotation_key_source_pod_manifest pod.meta.annotations)
      else ok pod
