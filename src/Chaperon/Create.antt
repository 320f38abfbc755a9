-- ===== src/Chaperon/Create.antt =====
-- When a pod is created, and what it is.
use admiralty.Base.{
  ℕ, ◌+◌, ◌<◌, String, ◌≡◌, refl, true, Option, none, some, ◌⊎◌, inl, inr, All, eq_iff, Result, ok,
  err, Error, is_not_found, Makes, makes_rules, Makes-return, All-calls, calls, lift-bind, arith,
}
use admiralty.Kube.{Pod, PodChaperon}
use admiralty.Chaperon.{
  Call, create_pod, patch_missing, update_status, update, Reconciler, minute, new_pod,
  missing_since, must_create, make_pod, obtain_pod, use_listed, unmark, bring_annotations,
  bring_status, follow_pod, reconcile, handle,
}

module _ (r : Reconciler) (chaperon : PodChaperon) where
  -- The pod never ran, or went missing more than a minute ago and restarts always.
  abbrev IsDue : Option ℕ → Type 0
  IsDue since =
      (chaperon.status.phase ≡ "")
      ⊎ ((t : ℕ) × (since ≡ some t)
          × (t + minute < r.now)
          × (chaperon.spec.restart_policy ≡ "Always"))

  -- A pod is created only as the chaperon's pod, when no pod is there, and when it is due.
  abbrev pub CreatesDue : Option ℕ → Call → Type 0
  CreatesDue since (create_pod namespace pod) =
      (pod ≡ new_pod r chaperon)
      × (namespace ≡ chaperon.meta.namespace)
      × ((e : Error) × (r.pods_lister chaperon.meta.namespace chaperon.meta.name ≡ err e)
          × (is_not_found e ≡ true))
      × IsDue since
  CreatesDue since (patch_missing namespace name text) = Unit
  CreatesDue since (update_status namespace c) = Unit
  CreatesDue since (update namespace c) = Unit

  must_create-IsDue : (since : Option ℕ) → must_create r chaperon since ≡ true → IsDue since
  must_create-IsDue none h = ground (arith, eq_iff chaperon.status.phase "")
  must_create-IsDue (some t) h = elim (due t h) [ inl p ↦ inl p | inr p ↦ inr (t, refl, p.0, p.1) ]
    where
      due :
          (t : ℕ)
          → must_create r chaperon (some t) ≡ true
          → (chaperon.status.phase ≡ "")
            ⊎ ((t + minute < r.now) × (chaperon.spec.restart_policy ≡ "Always"))
      due t h =
          ground
            (arith, eq_iff chaperon.status.phase "", eq_iff chaperon.spec.restart_policy "Always")

  module _ (since : Option ℕ) where
    make_pod-Makes :
        (namespace name : String) (e : Error)
        → r.pods_lister chaperon.meta.namespace chaperon.meta.name ≡ err e
        → is_not_found e ≡ true
        → Makes (CreatesDue since) (make_pod r namespace name chaperon since)
    unfolding make_pod
    make_pod-Makes namespace name e listed gone = search (makes_rules, must_create-IsDue)

    unmark-Makes :
        (namespace name : String) (since' : Option ℕ)
        → Makes (CreatesDue since) (unmark r namespace name since')
    unfolding unmark
    unmark-Makes namespace name none = search makes_rules
    unmark-Makes namespace name (some t) = search makes_rules

    bring_annotations-Makes :
        (pod : Pod) (latest : PodChaperon)
        → Makes (CreatesDue since) (bring_annotations r chaperon pod latest)
    unfolding bring_annotations
    bring_annotations-Makes pod latest = search makes_rules

    bring_status-Makes : (pod : Pod) → Makes (CreatesDue since) (bring_status r chaperon pod)
    unfolding bring_status
    bring_status-Makes pod = search (makes_rules, bring_annotations-Makes)

    follow_pod-Makes :
        (namespace name : String) (pod : Option Pod)
        → Makes (CreatesDue since) (follow_pod r namespace name chaperon since pod)
    unfolding follow_pod
    follow_pod-Makes namespace name none = search makes_rules
    follow_pod-Makes namespace name (some pod) =
        search (makes_rules, unmark-Makes, bring_status-Makes)

    use_listed-Makes :
        (namespace name : String) (listed : Result Pod)
        → r.pods_lister chaperon.meta.namespace chaperon.meta.name ≡ listed
        → Makes (CreatesDue since) (use_listed r namespace name chaperon since listed)
    unfolding use_listed
    use_listed-Makes namespace name (ok pod) e = Makes-return (some pod)
    use_listed-Makes namespace name (err x) e = search (makes_rules, make_pod-Makes)

    obtain_pod-Makes :
        (namespace name : String)
        → Makes (CreatesDue since) (obtain_pod r namespace name chaperon since)
    unfolding obtain_pod
    obtain_pod-Makes namespace name = use_listed-Makes namespace name _ refl

    reconcile-Makes :
        (namespace name : String)
        → missing_since r chaperon ≡ ok since
        → Makes (CreatesDue since) (reconcile r namespace name chaperon)
    unfolding reconcile
    reconcile-Makes namespace name marked =
        rw (marked, lift-bind) (search (makes_rules, obtain_pod-Makes, follow_pod-Makes))

-- In a whole `Handle`, a pod is created only if the lister finds none, and the chaperon's pod
-- never ran, or went missing more than a minute ago and has the restart policy Always; and then it
-- is the pod made from the chaperon, in the chaperon's namespace.
pub handle-CreatesDue :
    (r : Reconciler) (key : String) (chaperon : PodChaperon) (since : Option ℕ)
    → r.pod_chaperons_lister (r.split_key key).0 (r.split_key key).1 ≡ ok chaperon
    → missing_since r chaperon ≡ ok since
    → All (CreatesDue r chaperon since) (calls (handle r key))
unfolding handle
handle-CreatesDue r key chaperon since listed marked =
    rw (listed, handle)
      (All-calls _
        (reconcile-Makes r chaperon since (r.split_key key).0 (r.split_key key).1 marked))
