-- ===== src/Logs/Delegates.antt =====
-- Which pod's logs and containers a proxy pod stands for.
use admiralty.Base.{
  ℕ, zero, suc, ◌≢◌, ◌⊎◌, inl, inr, Option, none, some, subst, String, ◌≡◌, refl, ap, ◌∙◌, true,
  false, ◌==◌, List, [], ◌∷◌, ok, return, fail, send, try-Returns, if-Returns, ok_inj, arith,
}
use admiralty.Kube.{Pod}
use admiralty.DelegatePod.{get_scheduled_cluster_name}
use admiralty.Logs.{
  ContainerLogOpts, PodLogOptions, non_zero, get_logs, log_options, get_container_logs, Call,
  get_pod, list_pods, LogsExecProvider, only_delegate, parent_selector, find_delegate,
  get_target_and_delegate_pod_names,
}

module _ (p : LogsExecProvider) (namespace : String) where
  -- The target is that of the proxy pod, and is there; and its only pod with the label of the proxy
  -- pod's UID has the name.
  abbrev pub IsDelegate : Pod → String → String → Type 0
  IsDelegate proxy_pod target_name pod_name =
      (get_scheduled_cluster_name proxy_pod ≡ target_name)
      × ((target_name == "") ≡ false)
      × (p.has_target target_name ≡ true)
      × (log : List Call) × (pod : Pod) × (p.server log
            (list_pods target_name namespace (parent_selector p proxy_pod))
          ≡ ok (pod ∷ []))
      × (pod.meta.name ≡ pod_name)

  only_delegate-one :
      (target_name : String) (pods : List Pod) (log : List Call) (names : String × String)
      → (only_delegate p target_name pods log).0 ≡ ok names
      → (pod : Pod) × (pods ≡ pod ∷ []) × ((target_name, pod.meta.name) ≡ names)
  unfolding only_delegate return fail
  only_delegate-one target_name [] log names e = cc
  only_delegate-one target_name (pod ∷ []) log names e = (pod, refl, ok_inj e)
  only_delegate-one target_name (pod ∷ other ∷ pods) log names e = cc

  find_delegate-IsDelegate :
      (proxy_pod : Pod) (log : List Call) (names : String × String)
      → (find_delegate p namespace proxy_pod log).0 ≡ ok names
      → IsDelegate proxy_pod names.0 names.1
  unfolding find_delegate send fail
  find_delegate-IsDelegate proxy_pod log names done =
      let target_name = get_scheduled_cluster_name proxy_pod in
      if-Returns (target_name == "") _ _ log done (λ empty failed. cc)
        (λ scheduled done'.
          if-Returns (p.has_target target_name) _ _ log done'
            (λ current done''.
              try-Returns _ _ _ log done'' (λ x log' failed. cc)
                (λ pods log' listed found.
                  let (pod, only, e) = only_delegate-one target_name pods log' names found in
                  subst (λ n. IsDelegate proxy_pod n.0 n.1) e
                    (refl, scheduled, current, log, pod, ap (λ l. l.0) listed ∙ ap ok only, refl)))
            (λ gone failed. cc))

  names-IsDelegate :
      (pod_name : String) (log : List Call) (names : String × String)
      → (get_target_and_delegate_pod_names p namespace pod_name log).0 ≡ ok names
      → (proxy_pod : Pod) × (p.server log (get_pod namespace pod_name) ≡ ok proxy_pod)
        × IsDelegate proxy_pod names.0 names.1
  unfolding get_target_and_delegate_pod_names send fail
  names-IsDelegate pod_name log names done =
      try-Returns _ _ _ log done (λ x log' failed. cc)
        (λ proxy_pod log' got found.
          (proxy_pod, ap (λ l. l.0) got, find_delegate-IsDelegate proxy_pod log' names found))

-- What is asked of the target: a count of 0 is not set.
abbrev Counts : ℕ → Option ℕ → Type 0
Counts n count = (n ≡ 0) × (count ≡ none) ⊎ (n ≢ 0) × (count ≡ some n)

abbrev pub Asks : String → ContainerLogOpts → PodLogOptions → Type 0
Asks container_name opts asked =
    (asked.container ≡ container_name)
    × (asked.timestamps ≡ opts.timestamps)
    × (asked.follow ≡ opts.follow)
    × (asked.previous ≡ opts.previous)
    × Counts opts.tail asked.tail_lines
    × Counts opts.limit_bytes asked.limit_bytes
    × Counts opts.since_seconds asked.since_seconds
    × (asked.since_time ≡ opts.since_time)

log_options-Asks :
    (container_name : String) (opts : ContainerLogOpts)
    → Asks container_name opts (log_options container_name opts)
unfolding log_options
log_options-Asks container_name opts = (
  refl,
  refl,
  refl,
  refl,
  counts opts.tail,
  counts opts.limit_bytes,
  counts opts.since_seconds,
  refl,
)
  where
    counts : (n : ℕ) → Counts n (non_zero n)
    counts zero = inl (refl, refl)
    counts (suc n) = inr (λ e. omega arith, ground arith)

-- Where the logs of a container of a pod are returned, the pod is scheduled to a current target, whose
-- only pod of the namespace with the label of the pod's UID is its delegate; and they are what that
-- target answers for the delegate's container of the same name, with the same options but for the three
-- counts, of which each is not set where it is 0.
pub get_container_logs-IsDelegate :
    (p : LogsExecProvider) (namespace pod_name container_name : String) (opts : ContainerLogOpts)
    (log : List Call) (text : String)
    → (get_container_logs p namespace pod_name container_name opts log).0 ≡ ok text
    → (proxy_pod : Pod) × (names : String × String) × (asked : PodLogOptions) × (log' : List Call)
      × (p.server log (get_pod namespace pod_name) ≡ ok proxy_pod)
      × IsDelegate p namespace proxy_pod names.0 names.1
      × Asks container_name opts asked
      × (p.server log' (get_logs names.0 namespace names.1 asked) ≡ ok text)
unfolding get_container_logs send fail return
get_container_logs-IsDelegate p namespace pod_name container_name opts log text done =
    try-Returns _ _ _ log done (λ x log' failed. cc)
      (λ names log' made rest.
        let (proxy_pod, got, delegate) =
          names-IsDelegate p namespace pod_name log names (ap (λ l. l.0) made) in
        try-Returns _ _ _ log' rest (λ x log'' failed. cc)
          (λ text' log'' answered same. (
            proxy_pod,
            names,
            log_options container_name opts,
            log',
            got,
            delegate,
            log_options-Asks container_name opts,
            ap (λ l. l.0) answered ∙ same,
          )))
