-- ===== src/Cleanup/Events.antt =====
-- The events of the cleanup controller: those of five kinds of objects, each with the kind in its key.
use admiralty.Base.{String, List, [], ◌∷◌}
use admiralty.Kube.{Meta}
use admiralty.Controller.{Event}
use admiralty.Controller.Events.{on_add_update}
use admiralty.Cleanup.{Key}

-- The events of the informers that `NewController` registers handlers with.
pub data Watched : Type 0 where
  of_pod of_service of_ingress of_config_map of_secret : Event Meta → Watched

abbrev pub enqueue : String → Meta → List Key
enqueue kind m = record { kind = kind; namespace = m.namespace; name = m.name } ∷ []

pub enqueued : Watched → List Key
enqueued (of_pod event) = on_add_update (enqueue "Pod") event
enqueued (of_service event) = on_add_update (enqueue "Service") event
enqueued (of_ingress event) = on_add_update (enqueue "Ingress") event
enqueued (of_config_map event) = on_add_update (enqueue "ConfigMap") event
enqueued (of_secret event) = on_add_update (enqueue "Secret") event
