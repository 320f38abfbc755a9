-- ===== src/Ingress/Events.antt =====
-- The events of the ingresses controller.
use admiralty.Base.{String, List}
use admiralty.Kube.{Meta}
use admiralty.Controller.Events.{Keys, on_all}
use admiralty.Follow.Events.{Watched, enqueued}
use admiralty.Ingress.{Ingress, ingresses, Reconciler, enqueue_ingress_for_service}

-- The handlers that `NewIngressController` registers: every event of a service puts the ingresses on
-- the queue that the index has under the service.
enqueued_ingresses :
    Keys → Reconciler → (String → List Ingress) → Watched Ingress Meta → List String
enqueued_ingresses keys r ingress_index =
    enqueued ingresses keys r.base.cluster_name
      (on_all (enqueue_ingress_for_service keys.controller_of keys.namespace_key ingress_index))
