-- ===== src/Logs/Examples.antt =====
-- A proxy pod with its delegate in the target `admiralty-t`.
use admiralty.Base.{
  ◌==◌, String, ◌≡◌, refl, send, return, try, false, none, List, [], ◌∷◌, Result, ok,
}
use admiralty.Kube.{Pod}
use admiralty.Kube.Samples.{sample_pod}
use admiralty.DelegatePod.{get_scheduled_cluster_name}
use admiralty.Logs.{
  Call, get_pod, list_pods, get_logs, exec, Answer, ContainerLogOpts, PodLogOptions,
  LogsExecProvider, only_delegate, find_delegate, get_target_and_delegate_pod_names,
  get_container_logs,
}
use admiralty.Logs.Delegates.{IsDelegate, Asks, get_container_logs-IsDelegate}

abbrev answers : (log : List Call) (c : Call) → Result (Answer c)
answers log (get_pod namespace name) = ok (sample_pod "admiralty-t")
answers log (list_pods target namespace selector) = ok (sample_pod "n" ∷ [])
answers log (get_logs target namespace name options) = ok "started"
answers log (exec target namespace name options) = ok tt

abbrev provider : LogsExecProvider
provider = record { server = answers; has_target = λ name. name == "admiralty-t" }

abbrev options : ContainerLogOpts
options = record {
  timestamps = false;
  follow = false;
  previous = false;
  tail = 10;
  limit_bytes = 0;
  since_seconds = 0;
  since_time = none;
}

get_container_logs-IsDelegate_example :
    (proxy_pod : Pod) × (names : String × String) × (asked : PodLogOptions) × (log' : List Call)
    × (answers [] (get_pod "ns" "p") ≡ ok proxy_pod)
    × IsDelegate provider "ns" proxy_pod names.0 names.1
    × Asks "c" options asked
    × (answers log' (get_logs names.0 "ns" names.1 asked) ≡ ok "started")
unfolding get_container_logs get_target_and_delegate_pod_names find_delegate only_delegate send
    return try get_scheduled_cluster_name
get_container_logs-IsDelegate_example =
    get_container_logs-IsDelegate provider "ns" "p" "c" options [] "started" refl
