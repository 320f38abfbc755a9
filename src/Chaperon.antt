-- ===== src/Chaperon.antt =====
-- pkg/controllers/chaperon/controller.go, which runs in the target cluster: it creates the pod of a
-- pod chaperon, marks the chaperon when the pod goes missing, makes the pod anew after a minute,
-- and copies the pod's status and annotations to the chaperon. Times are in nanoseconds; the
-- clock, `time.Parse` and `Format`, `metav1.IsControlledBy` and `NewControllerRef`, `deep.Equal`,
-- the listers and the API server are parameters, in the record `Reconciler`.
pub mod Create
pub mod Settled
pub mod Recreate
pub mod Events
mod Examples
use admiralty.Base.{
  ℕ, ◌-◌, ◌*◌, String, ◌<>◌, Bool, true, false, not, ◌&&◌, ◌||◌, Option, none, some, List, [], ◌∷◌,
  Map, lookup, is_some, copy_into, ◌==◌, ltb, if◌then◌else◌, Result, ok, err, Error, is_not_found,
  errorf, wrap, Exec, return, fail, lift, try, request, ◌>>=◌, ◌>>◌,
}
use admiralty.Common.{annotation_key_pod_missing_since, merged_annotations, need_update}
use admiralty.Kube.{Meta, OwnerReference, PodStatus, Pod, PodChaperon}
use admiralty.Controller.{is_optimistic_lock_error}

abbrev pub second : ℕ
second = 1000000000

-- PodRecreatedIfPodChaperonNotDeletedAfter
abbrev pub minute : ℕ
minute = 60 * second

pub data Call : Type 0 where
  create_pod : String → Pod → Call
  -- the merge patch of the annotation `pod-missing-since`: `none` stands for null
  patch_missing : String → String → Option String → Call
  update_status : String → PodChaperon → Call
  update : String → PodChaperon → Call

abbrev pub Answer : Call → Type 0
Answer (create_pod namespace pod) = Pod
Answer (patch_missing namespace name since) = Unit {0}
Answer (update_status namespace chaperon) = PodChaperon
Answer (update namespace chaperon) = PodChaperon

pub record Reconciler : Type 0 where
  pub server : (log : List Call) (c : Call) → Result (Answer c)
  pub pods_lister : String → String → Result Pod
  pub pod_chaperons_lister : String → String → Result PodChaperon
  pub split_key : String → String × String
  pub now : ℕ
  pub format_time : ℕ → String
  pub parse_time : String → Result ℕ
  pub is_controlled_by : Meta → Meta → Bool
  pub new_controller_ref : Meta → String → OwnerReference
  pub status_differs : PodStatus → PodStatus → Bool

module _ (r : Reconciler) where
  open r use {server, now, format_time, parse_time, status_differs}

  -- The maps of labels and annotations are copied, entry by entry.
  pub new_pod : PodChaperon → Pod
  new_pod chaperon = record {
    meta = record {
      name = chaperon.meta.name;
      generate_name = "";
      namespace = chaperon.meta.namespace;
      uid = "";
      labels = copy_into [] chaperon.meta.labels;
      annotations = copy_into [] chaperon.meta.annotations;
      finalizers = [];
      owner_references = r.new_controller_ref chaperon.meta "PodChaperon" ∷ [];
      deletion_timestamp = none;
    };
    spec = chaperon.spec;
    status = record {
      phase = "";
      conditions = [];
      container_statuses = [];
      init_container_statuses = [];
      ephemeral_container_statuses = [];
      other = "";
    };
  }

  -- The time in the annotation, if the annotation is there.
  pub missing_since : PodChaperon → Result (Option ℕ)
  missing_since chaperon =
      elim (lookup annotation_key_pod_missing_since chaperon.meta.annotations) [
        | none ↦ ok none
        | some text ↦ elim (parse_time text) [
          | ok t ↦ ok (some t)
          | err e ↦
              err (
                wrap "cannot parse multicluster.admiralty.io/pod-missing-since annotation value: "
                  e)
        ]
      ]

  -- podMissing && time.Since(podMissingSince) > PodRecreatedIfPodChaperonNotDeletedAfter
  abbrev long_missing : Option ℕ → Bool
  long_missing none = false
  long_missing (some since) = ltb minute (now - since)

  abbrev pub must_create : PodChaperon → Option ℕ → Bool
  must_create chaperon since =
      (chaperon.status.phase == "")
      || (long_missing since && chaperon.spec.restart_policy == "Always")

  -- The pod was not found: it is created, or the chaperon is marked; `none` ends the pass.
  pub make_pod : String → String → PodChaperon → Option ℕ → Exec Call (Option Pod)
  make_pod namespace name chaperon since =
      if must_create chaperon since
      then try (request server (create_pod chaperon.meta.namespace (new_pod chaperon)))
          (λ e. fail (wrap "cannot create pod for pod chaperon " e)) (λ pod. return (some pod))
      else if is_some since
      then return none
      else try (request server (patch_missing namespace name (some (format_time now))))
          (λ e. fail (wrap "cannot patch pod chaperon: " e)) (λ _. return none)

  pub use_listed : String → String → PodChaperon → Option ℕ → Result Pod → Exec Call (Option Pod)
  use_listed namespace name chaperon since (ok pod) = return (some pod)
  use_listed namespace name chaperon since (err e) =
      if is_not_found e then make_pod namespace name chaperon since else fail e

  pub obtain_pod : String → String → PodChaperon → Option ℕ → Exec Call (Option Pod)
  unfolding use_listed
  obtain_pod namespace name chaperon since =
      use_listed namespace name chaperon since
        (r.pods_lister chaperon.meta.namespace chaperon.meta.name)

  pub unmark : String → String → Option ℕ → Exec Call (Unit {0})
  unmark namespace name none = return tt
  unmark namespace name (some since) =
      try (request server (patch_missing namespace name none))
        (λ e. fail (wrap "cannot patch pod chaperon: " e)) return

  -- An update that lost a race comes back after a second.
  abbrev retry_lost : Error → Exec Call (Option ℕ)
  retry_lost e = if is_optimistic_lock_error e then return (some second) else fail e

  -- `chaperon` is what the listers gave, `latest` what the status update has returned.
  pub bring_annotations : PodChaperon → Pod → PodChaperon → Exec Call (Option ℕ)
  bring_annotations chaperon pod latest =
      if need_update chaperon.meta.annotations pod.meta.annotations
      then try
          (request server (
            update latest.meta.namespace (record latest {
              meta = record latest.meta {
                annotations = merged_annotations chaperon.meta.annotations pod.meta.annotations;
              };
            })))
          retry_lost (λ _. return none)
      else return none

  pub bring_status : PodChaperon → Pod → Exec Call (Option ℕ)
  bring_status chaperon pod =
      if status_differs chaperon.status pod.status
      then try
          (request server
            (update_status chaperon.meta.namespace (record chaperon { status = pod.status })))
          retry_lost (bring_annotations chaperon pod)
      else bring_annotations chaperon pod chaperon

  pub follow_pod : String → String → PodChaperon → Option ℕ → Option Pod → Exec Call (Option ℕ)
  follow_pod namespace name chaperon since none = return none
  follow_pod namespace name chaperon since (some pod) =
      if r.is_controlled_by pod.meta chaperon.meta
      then (unmark namespace name since >> bring_status chaperon pod)
      else fail (
          errorf (
            "resource \""
            <> (pod.meta.name <> "\" already exists and is not managed by PodChaperon")))

  pub reconcile : String → String → PodChaperon → Exec Call (Option ℕ)
  reconcile namespace name chaperon = do
    since ← lift (missing_since chaperon)
    pod ← obtain_pod namespace name chaperon since
    follow_pod namespace name chaperon since pod

  pub handle : String → Exec Call (Option ℕ)
  handle key =
      let (namespace, name) = r.split_key key in
      elim (r.pod_chaperons_lister namespace name) [
        | ok chaperon ↦ reconcile namespace name chaperon
        | err e ↦ if is_not_found e then return none else fail e
      ]
