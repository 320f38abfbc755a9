-- ===== src/Service/Events.antt =====
-- The events of the services controller.
use admiralty.Base.{String, List}
use admiralty.Kube.{Meta}
use admiralty.Controller.Events.{Keys, on_add_update, enqueue}
use admiralty.Follow.Events.{Watched, enqueued}
use admiralty.Service.{Service, services, Reconciler}

-- The handlers that `NewController` registers. Endpoints have the name of their service, and pods are
-- not watched.
enqueued_services : Keys → Reconciler → Watched Service Meta → List String
enqueued_services keys r = enqueued services keys r.base.cluster_name (on_add_update (enqueue keys))
