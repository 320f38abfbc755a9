-- ===== src/ConfigMap.antt =====
-- pkg/controllers/follow/cm.go: config maps that proxy pods refer to follow. The pod index and
-- `reflect.DeepEqual` are parameters, in the record `Reconciler`.
pub mod Ownership
pub mod Events
mod Examples
use admiralty.Base.{
  ℕ, String, ◌<>◌, Bool, true, false, not, ◌||◌, Option, none, some, List, [], ◌∷◌, ◌++◌, Map, get,
  insert, copy_into, refl, ◌==◌, if◌then◌else◌, ok, is_already_exists, Exec, return, fail, try,
  request, ◌>>=◌,
}
use admiralty.Common.{label_key_parent_cluster_name}
use admiralty.Kube.{Meta, Pod}
use admiralty.Controller.{has_finalizer}
use admiralty.DelegatePod.{is_proxy}
use admiralty.Follow
use admiralty.Follow.{Kind, Call, create_remote, update_remote, Plan}
use admiralty.Follow.Keys.{keys_of_containers, keys_of_volumes, is_used}

pub record ConfigMap : Type 0 where
  pub meta : Meta
  pub contents : Map String  -- the field `Data`
  pub binary : Map String  -- the field `BinaryData`

abbrev pub config_maps : Kind ConfigMap
config_maps = record {
  meta = λ s. s.meta;
  with_meta = λ m s. record s { meta = m };
  meta-with_meta = λ m s. refl;
}

pub record Reconciler : Type 0 where
  pub base : Follow.Reconciler ConfigMap
  pub pod_index : String → List Pod
  pub same_data : Map String → Map String → Bool

pub index_proxy_pod_by_config_maps : Pod → List String
unfolding keys_of_containers keys_of_volumes
index_proxy_pod_by_config_maps pod =
    if is_proxy pod
    then keys_of_volumes (λ s. s.config_map) pod pod.spec.volumes
      ++ (keys_of_containers (λ s. s.config_map) pod pod.spec.containers
          ++ keys_of_containers (λ s. s.config_map) pod pod.spec.init_containers)
    else []

module _ (r : Reconciler) where
  open r use {base}

  make_remote_config_map : ConfigMap → ConfigMap
  make_remote_config_map config_map = record {
    meta = Follow.copy_meta config_maps base config_map;
    contents = copy_into [] config_map.contents;
    binary = copy_into [] config_map.binary;
  }

  pub is_stale : ConfigMap → ConfigMap → Bool
  is_stale remote config_map =
      not (r.same_data remote.contents config_map.contents)
      || not (r.same_data remote.binary config_map.binary)
      || not (get label_key_parent_cluster_name remote.meta.labels == base.cluster_name)

  pub refreshed : ConfigMap → ConfigMap → ConfigMap
  refreshed remote config_map = record remote {
    contents = copy_into [] config_map.contents;
    binary = copy_into [] config_map.binary;
    meta = record remote.meta {
      labels = insert label_key_parent_cluster_name base.cluster_name remote.meta.labels;
    };
  }

  pub update_data : ConfigMap → ConfigMap → Option ConfigMap
  unfolding is_stale refreshed
  update_data config_map remote =
      if is_stale remote config_map then some (refreshed remote config_map) else none

  pub bring_data : String → ConfigMap → Option ConfigMap → Exec (Call ConfigMap) (Option ℕ)
  unfolding make_remote_config_map update_data
  bring_data namespace config_map =
      Follow.bring_labelled config_maps base (make_remote_config_map config_map)
        (update_data config_map) namespace

  pub advance : String → ConfigMap → Option ConfigMap → Exec (Call ConfigMap) (Option ℕ)
  unfolding bring_data
  advance namespace config_map remote =
      Follow.ensure_finalizer config_maps base config_map
        (has_finalizer config_map.meta.finalizers base.target.finalizer)
      >>= λ held. bring_data namespace held remote

  pub plan : String → String → ConfigMap → Plan ConfigMap
  plan namespace name config_map =
      if is_used base.target (r.pod_index (namespace <> ("/" <> name)))
      then ok (some (advance namespace config_map))
      else ok none

  pub handle : String → Exec (Call ConfigMap) (Option ℕ)
  unfolding plan
  handle = Follow.handle config_maps base "cannot delete orphaned configmap: " (λ s. false) plan
