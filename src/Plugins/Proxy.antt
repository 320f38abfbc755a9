-- ===== src/Plugins/Proxy.antt =====
-- pkg/scheduler_plugins/proxy: for a proxy pod, the plugin makes a candidate in the target cluster of
-- each virtual node that is tried, waits for it to be reserved, allows the one that the scheduler
-- chooses, waits for it to be bound, and deletes the others. The clientset of a target is the
-- target's name in a call; the API server, polling, YAML and regular expressions are parameters, in
-- the record `Environment`.
pub mod Memory
pub mod Filter
pub mod Bind
mod Examples
use admiralty.Base.{
  String, ◌<>◌, Bool, true, false, not, ◌&&◌, ◌||◌, Option, none, some, List, [], ◌∷◌, Map, lookup,
  get, insert, delete, has_key, is_some, any, ◌==◌, if◌then◌else◌, Result, ok, err, Error, errorf,
  Exec, return, fail, lift, try, request, ◌>>=◌, ◌>>◌,
}
use admiralty.Common.{
  label_and_taint_key_virtual_kubelet_provider, virtual_kubelet_provider_name,
  label_key_target_namespace, annotation_key_no_reservation, annotation_key_is_reserved,
}
use admiralty.Kube.{Meta, PodCondition, Pod, PodChaperon}
use admiralty.Agent.{Target}
use admiralty.DelegatePod.{make_delegate_pod}
use admiralty.Plugins.{
  Status, success, refused, failure, unschedulable, unschedulable_and_unresolvable, Poller,
}

-- Each call is made in a cluster and a namespace; chaperons are selected by their parent's UID.
pub data Call : Type 0 where
  list_chaperons : String → String → String → Call
  create_chaperon : String → String → PodChaperon → Call
  patch_allowed : String → String → String → Call
  delete_chaperons : String → String → String → Call

abbrev pub Answer : Call → Type 0
Answer (list_chaperons cluster namespace uid) = List PodChaperon
Answer (create_chaperon cluster namespace chaperon) = PodChaperon
Answer (patch_allowed cluster namespace name) = PodChaperon
Answer (delete_chaperons cluster namespace uid) = Unit {0}

pub record Environment : Type 1 where
  pub server : (log : List Call) (c : Call) → Result (Answer c)
  pub filtering : Poller Call
  pub pre_binding : Poller Call
  pub unmarshal : String → Result Pod
  pub compile : String → Result (String → Bool)

-- The targets and their namespaces have the names of virtual nodes as keys.
pub record Plugin : Type 0 where
  pub cluster_name : String
  pub targets : Map Target
  pub target_namespaces : Map String
  pub failed_node_names_by_pod_uid : Map (Option (Map Bool))

-- New
pub add_targets : List Target → Map Target × Map String
add_targets [] = ([], [])
add_targets (target ∷ more) =
    let (targets, namespaces) = add_targets more in
    (
      insert target.virtual_node_name target targets,
      insert target.virtual_node_name target.namespace namespaces,
    )

pub new_plugin : String → List Target → Plugin
unfolding add_targets
new_plugin cluster_name agent_targets =
    let (targets, namespaces) = add_targets agent_targets in
    record {
      cluster_name = cluster_name;
      targets = targets;
      target_namespaces = namespaces;
      failed_node_names_by_pod_uid = [];
    }

-- What the plugin remembers of a pod: nil for a pod that is missing.
abbrev pub failed_node_names : Plugin → String → Option (Map Bool)
failed_node_names pl uid = elim (lookup uid pl.failed_node_names_by_pod_uid) [
  | none ↦ none
  | some names ↦ names
]

abbrev pub is_marked : Option (Map Bool) → String → Bool
is_marked none node_name = false
is_marked (some names) node_name = elim (lookup node_name names) [ none ↦ false | some b ↦ b ]

pub unreserved_in_a_previous_cycle : Plugin → String → String → Bool
unreserved_in_a_previous_cycle pl uid node_name = is_marked (failed_node_names pl uid) node_name

pub post_filter : Plugin → Pod → Plugin × Status
post_filter pl pod = (
  record pl {
    failed_node_names_by_pod_uid = insert pod.meta.uid none pl.failed_node_names_by_pod_uid;
  },
  refused unschedulable "",
)

abbrev pub made_map : Option (Map Bool) → Map Bool
made_map none = []
made_map (some names) = names

pub unreserve : Plugin → Pod → String → Plugin
unreserve pl p node_name = record pl {
  failed_node_names_by_pod_uid =
      insert p.meta.uid (some (insert node_name true (made_map (failed_node_names pl p.meta.uid))))
        pl.failed_node_names_by_pod_uid;
}

-- The end of PostBind.
pub forget_pod : Plugin → Pod → Plugin
forget_pod pl p = record pl {
  failed_node_names_by_pod_uid = delete p.meta.uid pl.failed_node_names_by_pod_uid;
}

-- isCandidatePodUnschedulable
abbrev is_failing : PodCondition → Bool
is_failing cond =
    (cond.kind == "PodScheduled")
    && (cond.status == "False")
    && ((cond.reason == "Unschedulable") || (cond.reason == "SchedulingGated"))

pub is_candidate_pod_unschedulable : PodChaperon → Bool
is_candidate_pod_unschedulable c = any is_failing c.status.conditions

-- The loop of `candidateIsBound`: the first condition of that kind decides.
pub bound_by : List PodCondition → Result (Option (Unit {0}))
bound_by [] = ok none
bound_by (cond ∷ conditions) =
    let rest = bound_by conditions in
    if cond.kind == "PodScheduled"
    then if cond.status == "True" then ok (some tt) else err (errorf "candidate binding failed")
    else rest

abbrev pub at_most_one : List PodChaperon → Result (Option PodChaperon)
at_most_one [] = ok none
at_most_one (c ∷ []) = ok (some c)
at_most_one (c ∷ d ∷ more) = err (errorf "more than one candidate in target cluster")

module _ (env : Environment) (pl : Plugin) where
  open env use {server, unmarshal, compile}

  pub get_candidate : Pod → String → Exec Call (Option PodChaperon)
  get_candidate proxy_pod cluster_name =
      if has_key cluster_name pl.targets
      then (request server (list_chaperons cluster_name proxy_pod.meta.namespace proxy_pod.meta.uid)
          >>= λ items. lift (at_most_one items))
      else fail (errorf ("no target for cluster name " <> cluster_name))

  pub allow_candidate : PodChaperon → String → Exec Call (Unit {0})
  allow_candidate c cluster_name =
      if has_key cluster_name pl.targets
      then (request server (patch_allowed cluster_name c.meta.namespace c.meta.name) >>= λ _.
          return tt)
      else fail (errorf ("no target for cluster name " <> cluster_name))

  -- The candidate of the pod is made, in the target of that name.
  pub create_candidate : Pod → String → Exec Call (Unit {0})
  create_candidate pod cluster_name = do
    c ← lift (make_delegate_pod unmarshal compile pod pl.cluster_name)
    created ← request server (create_chaperon cluster_name c.meta.namespace c)
    return tt

  -- The condition that `Filter` polls: whether the candidate is unschedulable, once it is that or
  -- reserved.
  pub judge : Pod → String → Option PodChaperon → Exec Call (Option Bool)
  judge pod cluster_name none = create_candidate pod cluster_name >> return none
  judge pod cluster_name (some c) =
      let is_reserved = has_key annotation_key_is_reserved c.meta.annotations in
      let is_unschedulable = is_candidate_pod_unschedulable c in
      if is_reserved || is_unschedulable then return (some is_unschedulable) else return none

  pub filter_condition : Pod → String → Exec Call (Option Bool)
  filter_condition pod cluster_name = get_candidate pod cluster_name >>= judge pod cluster_name

  abbrev pub out_of_scope : String → Pod → Bool
  out_of_scope namespace pod = not (namespace == "") && not (namespace == pod.meta.namespace)

  abbrev pub filtered : Bool → Status
  filtered true = refused unschedulable_and_unresolvable ""
  filtered false = success

  pub filter : Pod → Meta → Exec Call Status
  filter pod node =
      if not (
        get label_and_taint_key_virtual_kubelet_provider node.labels
        == virtual_kubelet_provider_name)
      then return (refused unschedulable_and_unresolvable "")
      else if unreserved_in_a_previous_cycle pl pod.meta.uid node.name
      then return (refused unschedulable_and_unresolvable "unreserved in a previous cycle")
      else if out_of_scope (get label_key_target_namespace node.labels) pod
      then return (refused unschedulable_and_unresolvable "target in different namespace")
      else if has_key annotation_key_no_reservation pod.meta.annotations
      then return success
      else try (env.filtering.poll (filter_condition pod node.name))
          (λ e. return (refused unschedulable_and_unresolvable e.message))
          (λ is_unschedulable. return (filtered is_unschedulable))

  abbrev pub failing : Error → Exec Call Status
  failing e = return (refused failure e.message)

  pub reserve_found : Pod → String → Option PodChaperon → Exec Call Status
  reserve_found p node_name (some c) =
      try (allow_candidate c node_name) failing (λ _. return success)
  reserve_found p node_name none =
      if has_key annotation_key_no_reservation p.meta.annotations
      then try (create_candidate p node_name) failing (λ _. return success)
      else return (refused failure "candidate not found")

  pub reserve : Pod → String → Exec Call Status
  unfolding reserve_found
  reserve p node_name = try (get_candidate p node_name) failing (reserve_found p node_name)

  abbrev pub bound_candidate : Option PodChaperon → Result (Option (Unit {0}))
  bound_candidate none = err (errorf "candidate not found")
  bound_candidate (some c) = bound_by c.status.conditions

  -- An error of the API server is taken for one that will pass.
  pub candidate_is_bound : Pod → String → Exec Call (Option (Unit {0}))
  candidate_is_bound p cluster_name =
      try (get_candidate p cluster_name) (λ e. return none) (λ c. lift (bound_candidate c))

  pub pre_bind : Pod → String → Exec Call Status
  pre_bind p node_name =
      try (env.pre_binding.poll (candidate_is_bound p node_name)) failing (λ _. return success)

  -- The loop of `PostBind`: an error is reported and does not stop it.
  pub delete_others : Pod → String → Map Target → Exec Call (Unit {0})
  delete_others p node_name [] = return tt
  delete_others p node_name ((cluster_name, target) ∷ more) =
      let rest = delete_others p node_name more in
      if cluster_name == node_name
      then rest
      else if out_of_scope (get cluster_name pl.target_namespaces) p
      then rest
      else try (request server (delete_chaperons cluster_name p.meta.namespace p.meta.uid))
          (λ e. rest) (λ _. rest)

  pub post_bind : Pod → String → Exec Call Plugin
  unfolding delete_others forget_pod
  post_bind p node_name = delete_others p node_name pl.targets >> return (forget_pod pl p)
