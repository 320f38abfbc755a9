-- ===== src/Secret.antt =====
-- pkg/controllers/follow/secret.go: secrets that proxy pods refer to follow. The pod index and
-- `reflect.DeepEqual` are parameters, in the record `Reconciler`.
pub mod Ownership
pub mod Lifecycle
pub mod Departure
pub mod Events
mod Examples
use admiralty.Base.{
  ℕ, String, ◌<>◌, Bool, true, false, not, ◌||◌, Option, none, some, List, [], ◌∷◌, ◌++◌, Map, get,
  insert, copy_into, refl, ◌==◌, if◌then◌else◌, ok, is_already_exists, Exec, return, fail, try,
  request, ◌>>=◌,
}
use admiralty.Common.{label_key_parent_cluster_name}
use admiralty.Kube.{Meta, Pod}
use admiralty.Controller.{has_finalizer}
use admiralty.DelegatePod.{is_proxy}
use admiralty.Follow
use admiralty.Follow.{Kind, Call, create_remote, update_remote, Plan}
use admiralty.Follow.Keys.{key_of, keys_of_containers, keys_of_volumes, is_used}

pub record Secret : Type 0 where
  pub meta : Meta
  pub kind : String  -- the field `Type`
  pub contents : Map String  -- the field `Data`

abbrev pub secrets : Kind Secret
secrets = record {
  meta = λ s. s.meta;
  with_meta = λ m s. record s { meta = m };
  meta-with_meta = λ m s. refl;
}

pub record Reconciler : Type 0 where
  pub base : Follow.Reconciler Secret
  pub pod_index : String → List Pod
  pub same_data : Map String → Map String → Bool

abbrev keys_of_pull_secrets : Pod → List String → List String
keys_of_pull_secrets pod [] = []
keys_of_pull_secrets pod (name ∷ names) = key_of pod (some name) ++ keys_of_pull_secrets pod names

pub index_proxy_pod_by_secrets : Pod → List String
unfolding keys_of_containers keys_of_volumes
index_proxy_pod_by_secrets pod =
    if is_proxy pod
    then keys_of_volumes (λ s. s.secret) pod pod.spec.volumes
      ++ (keys_of_containers (λ s. s.secret) pod pod.spec.containers
          ++ (keys_of_containers (λ s. s.secret) pod pod.spec.init_containers
              ++ keys_of_pull_secrets pod pod.spec.image_pull_secrets))
    else []

module _ (r : Reconciler) where
  open r use {base}

  pub make_remote_secret : Secret → Secret
  make_remote_secret secret = record {
    meta = Follow.copy_meta secrets base secret;
    kind = secret.kind;
    contents = copy_into [] secret.contents;
  }

  pub is_stale : Secret → Secret → Bool
  is_stale remote secret =
      not (r.same_data remote.contents secret.contents)
      || not (get label_key_parent_cluster_name remote.meta.labels == base.cluster_name)

  pub refreshed : Secret → Secret → Secret
  refreshed remote secret = record remote {
    contents = copy_into [] secret.contents;
    meta = record remote.meta {
      labels = insert label_key_parent_cluster_name base.cluster_name remote.meta.labels;
    };
  }

  pub update_data : Secret → Secret → Option Secret
  unfolding is_stale refreshed
  update_data secret remote =
      if is_stale remote secret then some (refreshed remote secret) else none

  pub bring_data : String → Secret → Option Secret → Exec (Call Secret) (Option ℕ)
  unfolding make_remote_secret update_data
  bring_data namespace secret =
      Follow.bring_labelled secrets base (make_remote_secret secret) (update_data secret) namespace

  pub advance : String → Secret → Option Secret → Exec (Call Secret) (Option ℕ)
  unfolding bring_data
  advance namespace secret remote =
      Follow.ensure_finalizer secrets base secret
        (has_finalizer secret.meta.finalizers base.target.finalizer)
      >>= λ held. bring_data namespace held remote

  pub plan : String → String → Secret → Plan Secret
  plan namespace name secret =
      if is_used base.target (r.pod_index (namespace <> ("/" <> name)))
      then ok (some (advance namespace secret))
      else ok none

  pub handle : String → Exec (Call Secret) (Option ℕ)
  unfolding plan
  handle = Follow.handle secrets base "cannot delete orphaned secret: " (λ s. false) plan
