-- ===== src/Chaperon/Recreate.antt =====
-- A pod that is deleted under its chaperon: the chaperon is marked with the time, and the pod is
-- made anew once a minute has gone by, if it restarts always. The mark is read back in whole seconds.
use admiralty.Base.{
  ℕ, ◌+◌, ◌≤◌, ◌<◌, String, ◌≡◌, ◌≢◌, refl, ap, ◌∙◌, true, Option, none, some, List, [], ◌∷◌, ltb,
  ◌==◌, Bool-cases, lookup, insert, eq_iff, Result, ok, err, Error, is_not_found, calls, run, arith,
  ◌⊎◌, inl, inr, ◌>>=◌, lift-bind, Among, Keeps, Adds, Adds-send, Adds-bind, Adds-try, Adds-calls,
  keeps_rules,
}
use admiralty.Common.{annotation_key_pod_missing_since}
use admiralty.Kube.{Pod, PodChaperon}
use admiralty.Chaperon.{
  Call, create_pod, patch_missing, Reconciler, second, minute, must_create, new_pod, missing_since,
  make_pod, use_listed, obtain_pod, unmark, bring_annotations, bring_status, follow_pod, reconcile,
  handle,
}

-- The chaperon with the patch of the mark applied.
abbrev pub marked_at : PodChaperon → String → PodChaperon
marked_at chaperon text = record chaperon {
  meta = record chaperon.meta {
    annotations = insert annotation_key_pod_missing_since text chaperon.meta.annotations;
  };
}

-- A time is read back as it was written, but for a fraction of a second that is cut off.
abbrev pub ReadsSeconds : (ℕ → String) → (String → Result ℕ) → Type 0
ReadsSeconds format_time parse_time =
    (t : ℕ) → (s : ℕ) × (parse_time (format_time t) ≡ ok s) × (s ≤ t) × (t < s + second)

-- The pod that a chaperon asks for.
abbrev IsPodOf : PodChaperon → Pod → Type 0
IsPodOf chaperon pod =
    (pod.meta.name ≡ chaperon.meta.name)
    × (pod.meta.namespace ≡ chaperon.meta.namespace)
    × (pod.spec ≡ chaperon.spec)

-- A pass at that time, with the chaperon that the lister gives then.
abbrev pub pass : Reconciler → ℕ → PodChaperon → String → List Call
pass r time chaperon key =
    calls
      (handle (record r { now = time; pod_chaperons_lister = λ namespace name. ok chaperon }) key)

-- What becomes of a pass at that time, the pod being due after `due`.
abbrev pub Rests : PodChaperon → ℕ → ℕ → List Call → Type 0
Rests chaperon due time log =
    ((time ≤ due) ⊎ (chaperon.spec.restart_policy ≢ "Always")) × (log ≡ [])

abbrev pub Recreates : PodChaperon → ℕ → ℕ → List Call → Type 0
Recreates chaperon due time log =
    (due < time)
    × (chaperon.spec.restart_policy ≡ "Always")
    × (pod : Pod) × IsPodOf chaperon pod
    × Among (create_pod chaperon.meta.namespace pod) log

-- The rest of a pass keeps the calls that were made.
module _ (r : Reconciler) (c : Call) where
  unmark-Keeps :
      (namespace name : String) (since : Option ℕ) → Keeps c (unmark r namespace name since)
  unfolding unmark
  unmark-Keeps namespace name none = search keeps_rules
  unmark-Keeps namespace name (some t) = search keeps_rules

  bring_annotations-Keeps :
      (chaperon : PodChaperon) (pod : Pod) (latest : PodChaperon)
      → Keeps c (bring_annotations r chaperon pod latest)
  unfolding bring_annotations
  bring_annotations-Keeps chaperon pod latest = search keeps_rules

  bring_status-Keeps : (chaperon : PodChaperon) (pod : Pod) → Keeps c (bring_status r chaperon pod)
  unfolding bring_status
  bring_status-Keeps chaperon pod = search (keeps_rules, bring_annotations-Keeps)

  follow_pod-Keeps :
      (namespace name : String) (chaperon : PodChaperon) (since : Option ℕ) (pod : Option Pod)
      → Keeps c (follow_pod r namespace name chaperon since pod)
  unfolding follow_pod
  follow_pod-Keeps namespace name chaperon since none = search keeps_rules
  follow_pod-Keeps namespace name chaperon since (some pod) =
      search (keeps_rules, unmark-Keeps, bring_status-Keeps)

module _ (r : Reconciler) (chaperon : PodChaperon) (e : Error) where
  module _ (listed : r.pods_lister chaperon.meta.namespace chaperon.meta.name ≡ err e)
      (gone : is_not_found e ≡ true) where
    obtain_pod-gone :
        (namespace name : String) (since : Option ℕ)
        → obtain_pod r namespace name chaperon since ≡ make_pod r namespace name chaperon since
    unfolding obtain_pod use_listed
    obtain_pod-gone namespace name since = rw (listed, gone) refl

    reconcile-gone :
        (namespace name : String) (since : Option ℕ)
        → missing_since r chaperon ≡ ok since
        → reconcile r namespace name chaperon ≡ (
            make_pod r namespace name chaperon since >>= follow_pod r namespace name chaperon since)
    unfolding reconcile
    reconcile-gone namespace name since read =
        rw (read, lift-bind, obtain_pod-gone namespace name since) refl

  module _ (ran : chaperon.status.phase ≢ "") (namespace name : String) where
    marks :
        calls
          (make_pod r namespace name chaperon none >>= follow_pod r namespace name chaperon none)
        ≡ patch_missing namespace name (some (r.format_time r.now)) ∷ []
    unfolding make_pod follow_pod run
    marks = ground (arith, eq_iff chaperon.status.phase "")

    rests :
        (since : ℕ)
        → (r.now ≤ since + minute) ⊎ (chaperon.spec.restart_policy ≢ "Always")
        → calls (
            make_pod r namespace name chaperon (some since)
            >>= follow_pod r namespace name chaperon (some since))
          ≡ []
    unfolding make_pod follow_pod run
    rests since (inl early) = ground (arith, eq_iff chaperon.status.phase "")
    rests since (inr never) =
        ground
          (arith, eq_iff chaperon.status.phase "", eq_iff chaperon.spec.restart_policy "Always")

    creates :
        (since : ℕ)
        → since + minute < r.now
        → chaperon.spec.restart_policy ≡ "Always"
        → Among (create_pod chaperon.meta.namespace (new_pod r chaperon)) (
            calls (
              make_pod r namespace name chaperon (some since)
              >>= follow_pod r namespace name chaperon (some since)))
    unfolding make_pod new_pod
    creates since late always =
        Adds-calls _
          (Adds-bind _ _ adds (follow_pod-Keeps r _ namespace name chaperon (some since)))
      where
        due : must_create r chaperon (some since) ≡ true
        due = ground (arith, eq_iff chaperon.spec.restart_policy "Always")

        adds :
            Adds
              (create_pod chaperon.meta.namespace (new_pod r chaperon))
              (make_pod r namespace name chaperon (some since))
        adds =
            rw (due, make_pod)
              (Adds-try _ _ _ (Adds-send _) (λ x. search keeps_rules) (λ pod. search keeps_rules))

    either :
        (marked since : ℕ)
        → since ≤ marked
        → marked < since + second
        → let log = calls (
            make_pod r namespace name chaperon (some since)
            >>= follow_pod r namespace name chaperon (some since)) in
          Rests chaperon (marked + minute) r.now log
          ⊎ Recreates chaperon (marked + minute) (r.now + second) log
    unfolding new_pod
    either marked since before near = elim (Bool-cases (ltb (since + minute) r.now)) [
      | inr early ↦ inl (inl (ground arith), rests since (inl (ground arith)))
      | inl late ↦ elim (Bool-cases (chaperon.spec.restart_policy == "Always")) [
        | inr other ↦
            let never : chaperon.spec.restart_policy ≢ "Always" =
              λ same. ground (arith, eq_iff chaperon.spec.restart_policy "Always") in
            inl (inr never, rests since (inr never))
        | inl same ↦
            let always : chaperon.spec.restart_policy ≡ "Always" =
              ground (arith, eq_iff chaperon.spec.restart_policy "Always") in
            inr (
              ground arith,
              always,
              new_pod r chaperon,
              (refl, refl, refl),
              creates since (ground arith) always,
            )
      ]
    ]

-- The pod of a chaperon that has run and has no mark is not found, at some time and ever after: the one
-- call of the pass at that time marks the chaperon with the time. Of a later pass, where the lister
-- gives the chaperon with the mark, one of two holds: no call is made, and not more than a minute has
-- gone by or the pod does not restart always; or a pod with the chaperon's name, namespace and
-- specification is created, and more than a minute less a second has gone by and it restarts always.
pub handle-Recreates :
    (r : Reconciler) (chaperon : PodChaperon) (key : String) (e : Error) (marked later : ℕ)
    → r.pods_lister chaperon.meta.namespace chaperon.meta.name ≡ err e
    → is_not_found e ≡ true
    → chaperon.status.phase ≢ ""
    → lookup annotation_key_pod_missing_since chaperon.meta.annotations ≡ none
    → ReadsSeconds r.format_time r.parse_time
    → let text = r.format_time marked in
      let after = pass r later (marked_at chaperon text) key in
      (pass r marked chaperon key
        ≡ patch_missing (r.split_key key).0 (r.split_key key).1 (some text) ∷ [])
      × (Rests chaperon (marked + minute) later after
          ⊎ Recreates chaperon (marked + minute) (later + second) after)
unfolding handle missing_since lookup insert
handle-Recreates r chaperon key e marked later listed gone ran unmarked reads =
    let (since, read, before, near) = reads marked in
    let on_loss : Reconciler = record r {
      now = marked;
      pod_chaperons_lister = λ namespace name. ok chaperon;
    } in
    let held = marked_at chaperon (r.format_time marked) in
    let afterwards : Reconciler = record r {
      now = later;
      pod_chaperons_lister = λ namespace name. ok held;
    } in
    let (namespace, name) = r.split_key key in
    let again =
      reconcile-gone afterwards held e listed gone namespace name (some since) (rw read refl) in
    (
      ap calls (
            reconcile-gone on_loss chaperon e listed gone namespace name none
              (rw (unmarked, missing_since) refl))
          ∙ marks on_loss chaperon e ran namespace name,
      rw again (either afterwards held e ran namespace name marked since before near),
    )
