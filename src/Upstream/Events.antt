-- ===== src/Upstream/Events.antt =====
-- The events of the upstream resources controller: those of the target's virtual node, by its name, and
-- all those of cluster summaries. A node's name stands for the node.
use admiralty.Base.{String, List, [], ◌∷◌, ◌==◌, if◌then◌else◌}
use admiralty.Agent.{Target}
use admiralty.Controller.{Event}
use admiralty.Controller.Events.{on_add_update, on_all}
use admiralty.Resources.{ClusterSummary}

-- The events of the informers that `NewUpstreamController` registers handlers with.
pub data Watched (Q : Type 0) : Type 0 where
  of_node : Event String → Watched Q
  of_cluster_summary : Event (ClusterSummary Q) → Watched Q

pub enqueued : {Q : Type 0} → Target → Watched Q → List String
enqueued target (of_node event) =
    on_add_update (λ name. if name == target.virtual_node_name then name ∷ [] else []) event
enqueued {Q} target (of_cluster_summary event) =
    on_all (λ (summary : ClusterSummary Q). target.virtual_node_name ∷ []) event
