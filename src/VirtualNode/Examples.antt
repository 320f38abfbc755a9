-- ===== src/VirtualNode/Examples.antt =====
-- A pod that the webhook has made a proxy pod, and the virtual node of a cluster target.
use admiralty.Base.{
  refl, Bool, false, ◌&&◌, none, [], ◌∷◌, lookup, insert, ◌==◌, eq_iff, ok, err, unknown, arith,
}
use admiralty.Common.{annotation_key_elect}
use admiralty.Kube.{Toleration, Pod}
use admiralty.Kube.Samples.{sample_meta, sample_pod}
use admiralty.Agent.{Target}
use admiralty.Webhook.{Mutator, default, constraints, finish}
use admiralty.Webhook.Idempotent.{carrying}
use admiralty.VirtualNode.{Taint, node_from_opts}
use admiralty.VirtualNode.Admission.{EqualTolerates, Admitted, default-Admitted}

abbrev target : Target
target = record {
  name = "t";
  self = false;
  namespace = "";
  excluded_labels_regexp = none;
  virtual_node_name = "admiralty-t";
  finalizer = "multicluster.admiralty.io/t";
}

abbrev pod : Pod
pod = record (sample_pod "") { meta = sample_meta "u" [] ((annotation_key_elect, "") ∷ []) }

abbrev mutator : Mutator
mutator = record {
  known_finalizers = [];
  marshal = λ p. ok "manifest";
  unmarshal_strict = λ s. ok pod;
  unmarshal_spec_strict = λ s. err (record { reason = unknown; message = "not YAML" });
}

-- Equality of keys and values, whatever the effect.
abbrev tolerates : Toleration → Taint → Bool
tolerates t taint = t.key == taint.key && t.value == taint.value

tolerates-EqualTolerates : EqualTolerates tolerates
tolerates-EqualTolerates t taint op effect key value =
    ground (arith, eq_iff t.key taint.key, eq_iff t.value taint.value)

default-Admitted_example :
    Admitted tolerates pod
      (finish mutator (carrying pod "manifest") none)
      target
      (node_from_opts "now" "now" "10.0.0.1" target)
unfolding default lookup insert constraints
default-Admitted_example =
    default-Admitted target "now" "now" "10.0.0.1" tolerates mutator pod
      (finish mutator (carrying pod "manifest") none) tolerates-EqualTolerates refl refl
