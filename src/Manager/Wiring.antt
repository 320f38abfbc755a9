-- ===== src/Manager/Wiring.antt =====
-- What the agent starts, target by target.
use admiralty.Base.{
  String, ◌≡◌, ◌≢◌, refl, sym, ap, ◌∙◌, Bool, Option, some, List, [], ◌∷◌, ◌++◌, All, Map, lookup,
  insert, lookup-insert, eq_iff, eq_refl, append_assoc, append-nil, arith,
}
use admiralty.Agent.{Target}
use admiralty.Manager.{
  Controller, feedback, upstream, Started, far, follow_controllers, add_target, add_targets,
  cluster_scoped, add_cluster_scoped, start_old_style_controllers, by_virtual_node, run_controllers,
}

-- No two targets have virtual nodes of one name.
abbrev pub Distinct : List Target → Type 0
Distinct [] = Unit {0}
Distinct (target ∷ targets) =
    All (λ other. other.virtual_node_name ≢ target.virtual_node_name) targets × Distinct targets

-- The controllers of a target: those of the objects that follow, unless the target is the cluster
-- itself; and feedback and resources, the latter with a provider of nodes.
module _ (updater : Target → Option Target) where
  abbrev pub wired : Target → List Controller
  wired target =
      follow_controllers target
      ++ (feedback target (far target) ∷ upstream target (far target) (updater target) ∷ [])

  abbrev pub all_wired : List Target → List Controller
  all_wired [] = []
  all_wired (target ∷ targets) = wired target ++ all_wired targets

by_virtual_node-other :
    (name : String) (m : Map Target) (targets : List Target)
    → All (λ other. other.virtual_node_name ≢ name) targets
    → lookup name (by_virtual_node m targets) ≡ lookup name m
unfolding by_virtual_node
by_virtual_node-other name m [] others = refl
by_virtual_node-other name m (target ∷ targets) (other, others) = ground (
  arith,
  by_virtual_node-other name (insert target.virtual_node_name target m) targets,
  lookup-insert target.virtual_node_name name target m,
  eq_iff target.virtual_node_name name,
)

-- With distinct names, each target is found under the name of its node.
by_virtual_node-All :
    (m : Map Target) (targets : List Target)
    → Distinct targets
    → All
        (λ target. lookup target.virtual_node_name (by_virtual_node m targets) ≡ some target)
        targets
unfolding by_virtual_node
by_virtual_node-All m [] distinct = tt
by_virtual_node-All m (target ∷ targets) (others, distinct) = (
  by_virtual_node-other target.virtual_node_name (insert target.virtual_node_name target m) targets
        others
      ∙ lookup-insert target.virtual_node_name target.virtual_node_name target m
      ∙ rw (eq_refl target.virtual_node_name) refl,
  by_virtual_node-All (insert target.virtual_node_name target m) targets distinct,
)

module _ (updaters : Map Target) where
  abbrev found : Target → Option Target
  found target = lookup target.virtual_node_name updaters

  add_targets-wired :
      (started : Started) (targets : List Target)
      → (add_targets updaters started targets).controllers
        ≡ started.controllers ++ all_wired found targets
  unfolding add_targets add_target
  add_targets-wired started [] = sym (append-nil started.controllers)
  add_targets-wired started (target ∷ targets) =
      add_targets-wired (add_target updaters started target) targets
      ∙ ap (λ cs. cs ++ all_wired found targets)
          (append_assoc started.controllers (follow_controllers target) _)
      ∙ append_assoc started.controllers (wired found target) (all_wired found targets)

  all_wired-found :
      (targets : List Target)
      → All (λ target. found target ≡ some target) targets
      → all_wired found targets ≡ all_wired some targets
  all_wired-found [] here = refl
  all_wired-found (target ∷ targets) (here, more) = rw (here, all_wired-found targets more) refl

-- Each provider is the one that is found under the name of the target's node.
pub run_controllers_lem :
    (targets : List Target) (listed : Bool)
    → (run_controllers targets listed).controllers
      ≡ all_wired (found (by_virtual_node [] targets)) targets ++ cluster_scoped targets listed
unfolding run_controllers start_old_style_controllers add_cluster_scoped add_targets
run_controllers_lem [] listed = refl
run_controllers_lem (target ∷ targets) listed =
    ap (λ cs. cs ++ cluster_scoped (target ∷ targets) listed)
      (add_targets-wired (by_virtual_node [] (target ∷ targets))
        (record { factories = []; controllers = [] }) (target ∷ targets))

-- Where the targets' virtual nodes have different names, the controllers that run are those of each
-- target, in the order of the targets, and then those of the cluster; and each target's virtual node
-- is updated through the provider that the node is run with.
pub run_controllers-wired :
    (targets : List Target) (listed : Bool)
    → Distinct targets
    → (run_controllers targets listed).controllers
      ≡ all_wired some targets ++ cluster_scoped targets listed
run_controllers-wired targets listed distinct =
    run_controllers_lem targets listed
    ∙ ap (λ cs. cs ++ cluster_scoped targets listed)
        (all_wired-found (by_virtual_node [] targets) targets
          (by_virtual_node-All [] targets distinct))
