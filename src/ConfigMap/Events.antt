-- ===== src/ConfigMap/Events.antt =====
-- The events of the config maps controller.
use admiralty.Base.{String, List}
use admiralty.Kube.{Pod}
use admiralty.Controller.Events.{Keys, on_all}
use admiralty.Follow.Events.{Watched, enqueued}
use admiralty.ConfigMap.{ConfigMap, config_maps, Reconciler, index_proxy_pod_by_config_maps}

-- The handlers that `NewConfigMapController` registers: every event of a pod puts the keys on the
-- queue that the index has the pod under.
enqueued_config_maps : Keys → Reconciler → Watched ConfigMap Pod → List String
enqueued_config_maps keys r =
    enqueued config_maps keys r.base.cluster_name (on_all index_proxy_pod_by_config_maps)
