-- ===== src/Kube.antt =====
-- The Kubernetes objects that the program handles, with the fields that it reads or writes. All
-- other fields of an object stand together in one text, `other`. PodChaperon is the program's own,
-- pkg/apis/multicluster/v1alpha1/podchaperon_types.go: a pod's specification and status.
pub mod Samples
use admiralty.Base.{ℕ, String, Option, List, Map}

-- metav1.OwnerReference
pub record OwnerReference : Type 0 where
  pub kind : String
  pub name : String
  pub uid : String

-- metav1.ObjectMeta; a deletion timestamp is only tested for being there
pub record Meta : Type 0 where
  pub name : String
  pub generate_name : String
  pub namespace : String
  pub uid : String
  pub labels : Map String
  pub annotations : Map String
  pub finalizers : List String
  pub owner_references : List OwnerReference
  pub deletion_timestamp : Option String

-- Where an environment variable or a volume takes its value from: the names of a config map and
-- of a secret, if any.
pub record Reference : Type 0 where
  pub config_map : Option String
  pub secret : Option String

pub record VolumeMount : Type 0 where
  pub name : String
  pub mount_path : String

pub record Container : Type 0 where
  pub name : String
  pub env : List (Option Reference)  -- the `ValueFrom` of each variable
  pub env_from : List Reference
  pub volume_mounts : List VolumeMount

pub record Volume : Type 0 where
  pub name : String
  pub source : Reference
  pub projected : Option (List Reference)

pub record Toleration : Type 0 where
  pub key : String
  pub operator : String
  pub value : String
  pub effect : String

pub record PodSpec : Type 0 where
  pub scheduler_name : String
  pub node_name : String
  pub restart_policy : String
  pub node_selector : Map String
  pub tolerations : List Toleration
  pub affinity : Option String
  pub topology_spread_constraints : List String
  pub containers : List Container
  pub init_containers : List Container
  pub ephemeral_containers : List Container
  pub volumes : List Volume
  pub image_pull_secrets : List String
  pub priority : Option ℕ
  pub termination_grace_period_seconds : Option ℕ
  pub other : String

pub record PodCondition : Type 0 where
  pub kind : String  -- the field `Type`
  pub status : String
  pub reason : String

pub record ContainerStatus : Type 0 where
  pub name : String
  pub other : String

pub record PodStatus : Type 0 where
  pub phase : String
  pub conditions : List PodCondition
  pub container_statuses : List ContainerStatus
  pub init_container_statuses : List ContainerStatus
  pub ephemeral_container_statuses : List ContainerStatus
  pub other : String

pub record Pod : Type 0 where
  pub meta : Meta
  pub spec : PodSpec
  pub status : PodStatus

pub record PodChaperon : Type 0 where
  pub meta : Meta
  pub spec : PodSpec
  pub status : PodStatus
