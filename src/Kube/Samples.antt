-- ===== src/Kube/Samples.antt =====
-- Small objects for the tests of all components.
use admiralty.Base.{String, none, [], ◌∷◌, Map}
use admiralty.Kube.{Meta, PodSpec, PodStatus, Pod, PodChaperon}

abbrev pub sample_meta : String → Map String → Map String → Meta
sample_meta uid labels annotations = record {
  name = "p";
  generate_name = "";
  namespace = "ns";
  uid = uid;
  labels = labels;
  annotations = annotations;
  finalizers = "a" ∷ "multicluster.admiralty.io/t" ∷ "b" ∷ [];
  owner_references = [];
  deletion_timestamp = none;
}

abbrev pub sample_spec : String → PodSpec
sample_spec node_name = record {
  scheduler_name = "admiralty-proxy";
  node_name = node_name;
  restart_policy = "Always";
  node_selector = [];
  tolerations = [];
  affinity = none;
  topology_spread_constraints = [];
  containers = [];
  init_containers = [];
  ephemeral_containers = [];
  volumes = [];
  image_pull_secrets = [];
  priority = none;
  termination_grace_period_seconds = none;
  other = "";
}

abbrev pub sample_status : String → PodStatus
sample_status phase = record {
  phase = phase;
  conditions = [];
  container_statuses = [];
  init_container_statuses = [];
  ephemeral_container_statuses = [];
  other = "";
}

abbrev pub sample_pod : String → Pod
sample_pod node_name = record {
  meta = sample_meta "u" [] [];
  spec = sample_spec node_name;
  status = sample_status "";
}

abbrev pub sample_chaperon : Map String → PodChaperon
sample_chaperon annotations = record {
  meta = sample_meta "c" [] annotations;
  spec = sample_spec "";
  status = sample_status "Running";
}
