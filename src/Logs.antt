-- ===== src/Logs.antt =====
-- pkg/vk/http/provider.go: logs and commands of a proxy pod are those of its delegate pod, in the target
-- that it was scheduled to. The API servers are a parameter. A container's log is a text; counts are
-- natural numbers; a time is a text, and the zero time is none. The streams of a command are not
-- modelled, only which of them there are.
pub mod Delegates
mod Examples
use admiralty.Base.{
  ℕ, String, ◌<>◌, Bool, true, false, Option, none, some, List, [], ◌∷◌, eqb, ◌==◌, if◌then◌else◌,
  Result, ok, err, errorf, wrap, Exec, return, fail, try, request, ◌>>=◌,
}
use admiralty.Common.{label_key_parent_uid}
use admiralty.Kube.{Pod}
use admiralty.DelegatePod.{get_scheduled_cluster_name}

-- api.ContainerLogOpts, and v1.PodLogOptions
pub record ContainerLogOpts : Type 0 where
  pub timestamps : Bool
  pub follow : Bool
  pub previous : Bool
  pub tail : ℕ
  pub limit_bytes : ℕ
  pub since_seconds : ℕ
  pub since_time : Option String

pub record PodLogOptions : Type 0 where
  pub container : String
  pub timestamps : Bool
  pub follow : Bool
  pub previous : Bool
  pub tail_lines : Option ℕ
  pub limit_bytes : Option ℕ
  pub since_seconds : Option ℕ
  pub since_time : Option String

-- v1.PodExecOptions
pub record PodExecOptions : Type 0 where
  pub container : String
  pub command : List String
  pub stdin : Bool
  pub stdout : Bool
  pub stderr : Bool
  pub tty : Bool

-- The calls of the source's client, and of the clients of the targets, by the target's name.
pub data Call : Type 0 where
  get_pod : String → String → Call
  list_pods : String → String → String → Call
  get_logs : String → String → String → PodLogOptions → Call
  exec : String → String → String → PodExecOptions → Call

abbrev pub Answer : Call → Type 0
Answer (get_pod namespace name) = Pod
Answer (list_pods target namespace selector) = List Pod
Answer (get_logs target namespace name options) = String
Answer (exec target namespace name options) = Unit {0}

pub record LogsExecProvider : Type 0 where
  pub server : (log : List Call) (c : Call) → Result (Answer c)
  pub has_target : String → Bool

abbrev pub non_zero : ℕ → Option ℕ
non_zero n = if eqb n 0 then none else some n

pub log_options : String → ContainerLogOpts → PodLogOptions
log_options container opts = record {
  container = container;
  timestamps = opts.timestamps;
  follow = opts.follow;
  previous = opts.previous;
  tail_lines = non_zero opts.tail;
  limit_bytes = non_zero opts.limit_bytes;
  since_seconds = non_zero opts.since_seconds;
  since_time = opts.since_time;
}

module _ (p : LogsExecProvider) where
  open p use {server}

  pub only_delegate : String → List Pod → Exec Call (String × String)
  only_delegate target_name [] = fail (errorf "delegate pod not found")
  only_delegate target_name (pod ∷ []) = return (target_name, pod.meta.name)
  only_delegate target_name (pod ∷ other ∷ pods) = fail (errorf "more than one delegate pod")

  abbrev pub parent_selector : Pod → String
  parent_selector proxy_pod = label_key_parent_uid <> ("=" <> proxy_pod.meta.uid)

  pub find_delegate : String → Pod → Exec Call (String × String)
  unfolding only_delegate
  find_delegate namespace proxy_pod =
      let target_name = get_scheduled_cluster_name proxy_pod in
      if target_name == ""
      then fail (errorf "proxy pod isn't scheduled yet")
      else if p.has_target target_name
      then try (request server (list_pods target_name namespace (parent_selector proxy_pod)))
          (λ e. fail (wrap "cannot list delegate pod: " e)) (only_delegate target_name)
      else fail (errorf "not a current target name")

  pub get_target_and_delegate_pod_names : String → String → Exec Call (String × String)
  unfolding find_delegate
  get_target_and_delegate_pod_names namespace pod_name =
      try (request server (get_pod namespace pod_name))
        (λ e. fail (wrap "cannot get proxy pod: " e)) (find_delegate namespace)

  pub get_container_logs : String → String → String → ContainerLogOpts → Exec Call String
  unfolding get_target_and_delegate_pod_names log_options
  get_container_logs namespace pod_name container_name opts =
      try (get_target_and_delegate_pod_names namespace pod_name)
        (λ e. fail (wrap "cannot get delegate pod name: " e))
        (λ names.
          try
            (request server (get_logs names.0 namespace names.1 (log_options container_name opts)))
            (λ e. fail (wrap "could not get stream from logs request: " e)) return)

  run_in_container : String → String → PodExecOptions → Exec Call (Unit {0})
  unfolding get_target_and_delegate_pod_names
  run_in_container namespace name options =
      try (get_target_and_delegate_pod_names namespace name)
        (λ e. fail (wrap "cannot get delegate pod name: " e))
        (λ names. request server (exec names.0 namespace names.1 options))
