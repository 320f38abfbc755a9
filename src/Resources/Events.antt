-- ===== src/Resources/Events.antt =====
-- The events of the downstream resources controller: those of the nodes that are not virtual. The
-- controller has one key, for all of them.
use admiralty.Base.{String, List, [], ◌∷◌, get, ◌==◌, if◌then◌else◌}
use admiralty.Common.{label_and_taint_key_virtual_kubelet_provider, virtual_kubelet_provider_name}
use admiralty.Controller.{Event}
use admiralty.Controller.Events.{on_all}
use admiralty.Resources.{Node}

-- The handler that `NewDownstreamController` registers.
pub enqueued : {Q : Type 0} → Event (Node Q) → List String
enqueued {Q} event =
    on_all
      (λ (node : Node Q).
        if get label_and_taint_key_virtual_kubelet_provider node.labels
          == virtual_kubelet_provider_name
        then []
        else "key" ∷ [])
      event
