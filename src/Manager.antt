-- ===== src/Manager.antt =====
-- cmd/agent/main.go: what the agent starts for the targets of its configuration. A controller stands
-- for a call of its constructor, with the arguments that tell the targets and the clusters apart. The
-- clients, the flags and the signals are not modelled; that they cannot be made ends the program.
-- Whether cluster sources can be listed, and what becomes of the certificate, are parameters.
pub mod Wiring
pub mod Spares
mod Examples
use admiralty.Base.{
  String, Bool, true, false, Option, none, some, List, [], ◌∷◌, ◌++◌, Map, lookup, insert,
  if◌then◌else◌, Result, ok, err, Error,
}
use admiralty.Agent.{Target, get_known_finalizers}

-- Where a client or an informer is from.
pub data Cluster : Type 0 where
  source_cluster : Cluster
  target_cluster : Target → Cluster

-- A factory of informers: of which API, in which cluster, and in which namespace; none is all.
pub data Factory : Type 0 where
  kube : Cluster → String → Factory
  custom : Cluster → String → Factory

-- `feedback` and `upstream` have the cluster of the chaperons and of the summary; `upstream` also has
-- the provider of a virtual node, which is named by the target that the node is run for.
pub data Controller : Type 0 where
  config_maps_follow : Target → Controller
  services_follow : Target → Controller
  secrets_follow : Target → Controller
  ingresses_follow : Target → Controller
  feedback : Target → Cluster → Controller
  upstream : Target → Cluster → Option Target → Controller
  chaperon : Controller
  downstream : Controller
  cleanup : List String → Controller
  source : Controller

pub record Started : Type 0 where
  pub factories : List Factory
  pub controllers : List Controller

-- A target that is the cluster itself re-uses its clients and informers.
pub far : Target → Cluster
far target = if target.self then source_cluster else target_cluster target

far_factories : Target → List Factory
far_factories target =
    if target.self
    then []
    else kube (target_cluster target) target.namespace
      ∷ custom (target_cluster target) target.namespace
      ∷ []

pub follow_controllers : Target → List Controller
follow_controllers target =
    if target.self
    then []
    else config_maps_follow target
      ∷ services_follow target
      ∷ secrets_follow target
      ∷ ingresses_follow target
      ∷ []

module _ (node_status_updaters : Map Target) where
  -- A round of the loop of startOldStyleControllers.
  pub add_target : Started → Target → Started
  unfolding far far_factories follow_controllers
  add_target started target = record {
    factories =
        started.factories
        ++ (kube source_cluster target.namespace
            ∷ custom source_cluster target.namespace
            ∷ far_factories target);
    controllers =
        (started.controllers ++ follow_controllers target)
        ++ (feedback target (far target)
            ∷ upstream target (far target) (lookup target.virtual_node_name node_status_updaters)
            ∷ []);
  }

  pub add_targets : Started → List Target → Started
  unfolding add_target
  add_targets started [] = started
  add_targets started (target ∷ targets) = add_targets (add_target started target) targets

-- addClusterScopedFactoriesAndControllers; `listed` says whether cluster sources can be listed.
pub cluster_scoped : List Target → Bool → List Controller
cluster_scoped targets listed =
    chaperon
    ∷ downstream
    ∷ cleanup (get_known_finalizers targets)
    ∷ (if listed then source ∷ [] else [])

pub add_cluster_scoped : List Target → Bool → Started → Started
unfolding cluster_scoped
add_cluster_scoped targets listed started = record {
  factories = started.factories ++ (kube source_cluster "" ∷ custom source_cluster "" ∷ []);
  controllers = started.controllers ++ cluster_scoped targets listed;
}

pub start_old_style_controllers : List Target → Map Target → Bool → Started
unfolding add_targets add_cluster_scoped
start_old_style_controllers targets node_status_updaters listed =
    add_cluster_scoped targets listed
      (add_targets node_status_updaters (record { factories = []; controllers = [] }) targets)

-- The loops of startVirtualKubeletControllers, where the node of each target is run with a new
-- provider, and of startVirtualKubeletServers, with the target's client.
pub by_virtual_node : Map Target → List Target → Map Target
by_virtual_node m [] = m
by_virtual_node m (target ∷ targets) =
    by_virtual_node (insert target.virtual_node_name target m) targets

-- runControllers
pub run_controllers : List Target → Bool → Started
unfolding start_old_style_controllers by_virtual_node
run_controllers [] listed = start_old_style_controllers [] [] listed
run_controllers (target ∷ targets) listed =
    start_old_style_controllers (target ∷ targets) (by_virtual_node [] (target ∷ targets)) listed

-- What becomes of the request for a certificate, and of the servers of logs and commands.
pub data Certificate : Type 0 where
  signed : String → String → Certificate
  interrupted : Certificate
  refused : Error → Certificate

pub data Servers (S : Type 0) : Type 0 where
  serving : S → Servers S
  unsupported : Servers S
  panics : Error → Servers S

module _ {S : Type 0} (setup : Map Target → String → String → Result S) where
  abbrev unless_failed : Result S → Servers S
  unless_failed (err e) = panics e
  unless_failed (ok s) = serving s

  -- startVirtualKubeletServers; `setup` is SetupHTTPServer, with the targets that the provider knows.
  pub start_virtual_kubelet_servers : List Target → Certificate → Servers S
  unfolding by_virtual_node
  start_virtual_kubelet_servers targets (signed cert_pem key_pem) =
      unless_failed (setup (by_virtual_node [] targets) cert_pem key_pem)
  start_virtual_kubelet_servers targets interrupted = unsupported
  start_virtual_kubelet_servers targets (refused e) = panics e
