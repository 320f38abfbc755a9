-- ===== src/Feedback.antt =====
-- pkg/controllers/feedback/controller.go, which runs in the source cluster, once for each target:
-- it brings a delegate's annotations and status back to its proxy pod, and deletes delegates and
-- releases proxy pods that are done. The listers' answers and the API server's are parameters, in
-- the record `Reconciler`; so are `cache.SplitMetaNamespaceKey` and `deep.Equal`.
pub mod Statuses
pub mod Release
pub mod Orphans
pub mod Events
mod Examples
use admiralty.Base.{
  is_nil, nil_map, ℕ, ◌+◌, String, ◌<>◌, Bool, true, false, not, ◌&&◌, ◌||◌, Option, none, some,
  List, [], ◌∷◌, ◌++◌, take, any, remove_at, is_some, length, Map, lookup, get, insert, copy_into,
  has_key, deep_equal, text_eq, ◌==◌, if◌then◌else◌, Result, ok, err, Error, is_not_found, errorf,
  wrap, Exec, return, fail, lift, try, request, ◌>>=◌, ◌>>◌,
}
use admiralty.Common.{
  label_key_parent_uid, label_key_parent_cluster_name, annotation_key_pod_missing_since,
  merged_annotations, need_update,
}
use admiralty.Kube.{Meta, Container, ContainerStatus, PodSpec, PodStatus, Pod, PodChaperon}
use admiralty.Agent.{Target}
use admiralty.Controller.{has_finalizer}

-- The calls of both clientsets, each with the namespace that it is made in.
pub data Call : Type 0 where
  delete_chaperon : String → String → Call
  update_pod : String → Pod → Call
  update_pod_status : String → Pod → Call
  update_chaperon : String → PodChaperon → Call
  delete_pod : String → String → Call

abbrev pub Answer : Call → Type 0
Answer (delete_chaperon namespace name) = Unit {0}
Answer (update_pod namespace pod) = Pod
Answer (update_pod_status namespace pod) = Pod
Answer (update_chaperon namespace chaperon) = PodChaperon
Answer (delete_pod namespace name) = Unit {0}

pub record Reconciler : Type 0 where
  pub cluster_name : String
  pub target : Target
  pub server : (log : List Call) (c : Call) → Result (Answer c)
  pub pods_lister : String → String → Result Pod
  pub pod_chaperons_lister : String → Map String → Result (List PodChaperon)
  pub pod_chaperon_index : String → List PodChaperon
  pub split_key : String → String × String
  pub same_status : PodStatus → PodStatus → Bool

-- filterContainerStatuses: the loop over `statuses`, at index `i`
filter_loop :
    (String → Bool)
    → List ContainerStatus
    → ℕ
    → List ContainerStatus
    → Bool
    → List ContainerStatus
    → List ContainerStatus
filter_loop has_name statuses i [] copied retval = retval
filter_loop has_name statuses i (s ∷ rest) copied retval =
    let named = has_name s.name in
    filter_loop has_name statuses (i + 1) rest (copied || not named) (
      if named
      then if copied then retval ++ s ∷ [] else retval
      else if copied
      then retval
      else take i statuses)

pub filter_container_statuses : List ContainerStatus → (String → Bool) → List ContainerStatus
unfolding filter_loop
filter_container_statuses statuses has_name =
    filter_loop has_name statuses 0 statuses false statuses

-- hasContainerName and hasEphemeralContainerName
abbrev has_container_name : List Container → String → Bool
has_container_name containers name = any (λ c. c.name == name) containers

filter_container_status : PodSpec → PodStatus → PodStatus
unfolding filter_container_statuses
filter_container_status spec status = record status {
  container_statuses =
      filter_container_statuses status.container_statuses (has_container_name spec.containers);
  init_container_statuses =
      filter_container_statuses status.init_container_statuses
        (has_container_name spec.init_containers);
  ephemeral_container_statuses =
      filter_container_statuses status.ephemeral_container_statuses
        (has_container_name spec.ephemeral_containers);
}

module _ (r : Reconciler) where
  open r use {server, target, cluster_name, same_status}

  -- Delete, where an object that is gone already is no error.
  pub delete_candidate : (Error → Error) → String → String → Exec Call (Unit {0})
  delete_candidate on_error namespace name =
      try (request server (delete_chaperon namespace name))
        (λ e. if is_not_found e then return tt else fail (on_error e)) return

  -- The proxy pod is gone: delete its chaperons in the target cluster.
  pub delete_orphans : String → List PodChaperon → Exec Call (Option ℕ)
  delete_orphans namespace [] = return none
  delete_orphans namespace (candidate ∷ candidates) =
      delete_candidate (wrap "cannot delete orphaned pod chaperon: ") namespace candidate.meta.name
      >> delete_orphans namespace candidates

  pub remove_finalizer : Pod → ℕ → Exec Call Pod
  remove_finalizer pod j = request server (
      update_pod pod.meta.namespace
        (record pod { meta = record pod.meta { finalizers = remove_at j pod.meta.finalizers } }))

  -- The proxy pod is going away, or was scheduled to another target.
  abbrev pub is_leaving : Pod → Bool
  is_leaving proxy_pod =
      is_some proxy_pod.meta.deletion_timestamp
      || (not (proxy_pod.spec.node_name == "")
          && not (proxy_pod.spec.node_name == target.virtual_node_name))

  pub drop_finalizer : Pod → Option ℕ → Exec Call Pod
  drop_finalizer proxy_pod none = return proxy_pod
  drop_finalizer proxy_pod (some j) = remove_finalizer proxy_pod j

  pub release : String → Pod → Option PodChaperon → Exec Call Pod
  release namespace proxy_pod (some candidate) =
      if is_leaving proxy_pod
      then (delete_candidate (λ e. e) namespace candidate.meta.name >> return proxy_pod)
      else return proxy_pod
  release namespace proxy_pod none =
      if is_leaving proxy_pod
      then drop_finalizer proxy_pod (has_finalizer proxy_pod.meta.finalizers target.finalizer)
      else return proxy_pod

  -- The delegate pod went missing in the target cluster.
  pub delete_missing : String → Option PodChaperon → Exec Call (Unit {0})
  delete_missing namespace none = return tt
  delete_missing namespace (some candidate) =
      if has_key annotation_key_pod_missing_since candidate.meta.annotations
      then delete_candidate (λ e. errorf "cannot delete pod chaperon") namespace candidate.meta.name
      else return tt

  pub update_annotations : String → Pod → PodChaperon → Exec Call Pod
  update_annotations namespace proxy_pod delegate =
      if need_update proxy_pod.meta.annotations delegate.meta.annotations
      then request server (
          update_pod namespace (record proxy_pod {
            meta = record proxy_pod.meta {
              annotations = merged_annotations proxy_pod.meta.annotations delegate.meta.annotations;
            };
          }))
      else return proxy_pod

  pub update_status : String → Pod → PodChaperon → Exec Call Pod
  update_status namespace proxy_pod delegate =
      let status = filter_container_status proxy_pod.spec delegate.status in
      if same_status proxy_pod.status status
      then return proxy_pod
      else request server (update_pod_status namespace (record proxy_pod { status = status }))

  -- The parent cluster name of the delegate is added or corrected; the assignment panics if it has no
  -- labels.
  pub update_remote : String → PodChaperon → Exec Call (Unit {0})
  update_remote namespace delegate =
      if get label_key_parent_cluster_name delegate.meta.labels == cluster_name
      then return tt
      else if is_nil delegate.meta.labels
      then fail nil_map
      else try
          (request server (
            update_chaperon namespace (record delegate {
              meta = record delegate.meta {
                labels = insert label_key_parent_cluster_name cluster_name delegate.meta.labels;
              };
            })))
          (λ e. fail (errorf "cannot update candidate pod chaperon")) (λ _. return tt)

  pub follow_delegate : String → String → Pod → Option PodChaperon → Exec Call (Option ℕ)
  follow_delegate namespace name proxy_pod (some delegate) = do
    annotated ← update_annotations namespace proxy_pod delegate
    updated ← update_status namespace annotated delegate
    update_remote namespace delegate
    return none
  follow_delegate namespace name proxy_pod none = do
    request server (delete_pod namespace name)
    return none

  -- The candidate of a proxy pod, by the pod's UID.
  pub find_candidate : String → Pod → Result (Option PodChaperon)
  find_candidate namespace proxy_pod =
      elim (r.pod_chaperons_lister namespace ((label_key_parent_uid, proxy_pod.meta.uid) ∷ [])) [
        | err e ↦ err e
        | ok [] ↦ ok none
        | ok (candidate ∷ []) ↦ ok (some candidate)
        | ok (candidate ∷ another ∷ more) ↦ err (errorf "more than one candidate in target cluster")
      ]

  -- What `Handle` does once the candidate is known.
  pub settle : String → String → Pod → Option PodChaperon → Exec Call (Option ℕ)
  settle namespace name proxy_pod candidate = do
    released ← release namespace proxy_pod candidate
    delete_missing namespace candidate
    (if proxy_pod.spec.node_name == target.virtual_node_name
        then follow_delegate namespace name released candidate
        else return none)

  pub reconcile : String → String → Pod → Exec Call (Option ℕ)
  reconcile namespace name proxy_pod = do
    candidate ← lift (find_candidate namespace proxy_pod)
    settle namespace name proxy_pod candidate

  pub handle : String → Exec Call (Option ℕ)
  handle key =
      let (namespace, name) = r.split_key key in
      elim (r.pods_lister namespace name) [
        | ok proxy_pod ↦ reconcile namespace name proxy_pod
        | err e ↦
            if is_not_found e
            then delete_orphans namespace (r.pod_chaperon_index key)
            else fail (wrap "cannot get proxy pod: " e)
      ]
