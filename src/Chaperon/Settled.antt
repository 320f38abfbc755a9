-- ===== src/Chaperon/Settled.antt =====
-- A pass brings the chaperon to the state of its pod, and a pass in that state does nothing.
use admiralty.Base.{
  String, ◌≡◌, refl, true, false, none, List, [], ◌∷◌, lookup, if◌then◌else◌, ok, err, Error,
  errorf, ◌<>◌, run, arith,
}
use admiralty.Common.{annotation_key_pod_missing_since, is_ours, merged_annotations, need_update}
use admiralty.Common.Merge.{need_update_iff, lookup-merged_annotations}
use admiralty.Kube.{Pod, PodChaperon}
use admiralty.Chaperon.{
  Call, update_status, update, Reconciler, missing_since, obtain_pod, unmark, bring_annotations,
  bring_status, follow_pod, reconcile, handle,
}

-- The chaperon has its pod's status, and its pod's annotations but for those of this program.
pub record HasSettled (r : Reconciler) (chaperon : PodChaperon) (pod : Pod) : Type 0 where
  pub unmarked : lookup annotation_key_pod_missing_since chaperon.meta.annotations ≡ none
  pub same_status : r.status_differs chaperon.status pod.status ≡ false
  pub same_annotations :
      (k : String)
      → is_ours k ≡ false
      → lookup k chaperon.meta.annotations ≡ lookup k pod.meta.annotations

module _ (r : Reconciler) (key : String) (chaperon : PodChaperon) (pod : Pod) where
  -- A pass over a chaperon that has settled, with the pod that it controls there, makes no call.
  handle_settled :
      r.pod_chaperons_lister (r.split_key key).0 (r.split_key key).1 ≡ ok chaperon
      → r.pods_lister chaperon.meta.namespace chaperon.meta.name ≡ ok pod
      → r.is_controlled_by pod.meta chaperon.meta ≡ true
      → HasSettled r chaperon pod
      → run (handle r key) ≡ (ok none, [])
  unfolding handle reconcile obtain_pod follow_pod unmark bring_status bring_annotations run
      missing_since
  handle_settled listed found owned s =
      let marks : lookup annotation_key_pod_missing_since chaperon.meta.annotations ≡ none =
        s.unmarked in
      ground (
        arith,
        s.same_status,
        (need_update_iff chaperon.meta.annotations pod.meta.annotations).1 s.same_annotations,
      )

  -- If the lister has a pod that the chaperon does not control, and the chaperon is not marked,
  -- the pass ends with an error and makes no call.
  handle_foreign :
      r.pod_chaperons_lister (r.split_key key).0 (r.split_key key).1 ≡ ok chaperon
      → lookup annotation_key_pod_missing_since chaperon.meta.annotations ≡ none
      → r.pods_lister chaperon.meta.namespace chaperon.meta.name ≡ ok pod
      → r.is_controlled_by pod.meta chaperon.meta ≡ false
      → (e : Error) × (run (handle r key) ≡ (err e, []))
  unfolding handle reconcile obtain_pod follow_pod run missing_since
  handle_foreign listed unmarked found foreign = (
    errorf
        ("resource \"" <> (pod.meta.name <> "\" already exists and is not managed by PodChaperon")),
    ground arith,
  )

-- An API server that accepts the updates, and answers with the object that it was sent.
pub record Accepts (r : Reconciler) : Type 0 where
  pub accepts_status :
      (log : List Call) (namespace : String) (c : PodChaperon)
      → r.server log (update_status namespace c) ≡ ok c
  pub accepts_update :
      (log : List Call) (namespace : String) (c : PodChaperon)
      → r.server log (update namespace c) ≡ ok c

module _ (r : Reconciler) (chaperon : PodChaperon) (pod : Pod) where
  with_status : PodChaperon
  with_status =
      if r.status_differs chaperon.status pod.status
      then record chaperon { status = pod.status }
      else chaperon

  -- What the chaperon is after the updates.
  pub brought : PodChaperon
  unfolding with_status
  brought =
      if need_update chaperon.meta.annotations pod.meta.annotations
      then record with_status {
        meta = record with_status.meta {
          annotations = merged_annotations chaperon.meta.annotations pod.meta.annotations;
        };
      }
      else with_status

  -- The calls that bring it there, the last one first.
  pub updates : List Call
  unfolding with_status brought
  updates =
      let statuses =
        if r.status_differs chaperon.status pod.status
        then update_status chaperon.meta.namespace with_status ∷ []
        else [] in
      if need_update chaperon.meta.annotations pod.meta.annotations
      then update chaperon.meta.namespace brought ∷ statuses
      else statuses

  bring_status_lem : Accepts r → run (bring_status r chaperon pod) ≡ (ok none, updates)
  unfolding bring_status bring_annotations run updates
  bring_status_lem a = ground (
    arith,
    a.accepts_status [] chaperon.meta.namespace (record chaperon { status = pod.status }),
    a.accepts_update [] chaperon.meta.namespace brought,
    a.accepts_update
        (update_status chaperon.meta.namespace (record chaperon { status = pod.status }) ∷ [])
        chaperon.meta.namespace brought,
  )

  lookup-brought :
      (k : String)
      → lookup k brought.meta.annotations
        ≡ (if is_ours k then lookup k chaperon.meta.annotations else lookup k pod.meta.annotations)
  unfolding brought
  lookup-brought k = ground (
    arith,
    lookup-merged_annotations k chaperon.meta.annotations pod.meta.annotations,
    λ (h : need_update chaperon.meta.annotations pod.meta.annotations ≡ false).
        (need_update_iff chaperon.meta.annotations pod.meta.annotations).0 h k,
  )

  ours : is_ours annotation_key_pod_missing_since ≡ true
  unfolding is_ours
  ours = refl

  brought-HasSettled :
      lookup annotation_key_pod_missing_since chaperon.meta.annotations ≡ none
      → r.status_differs pod.status pod.status ≡ false
      → HasSettled r brought pod
  unfolding brought
  brought-HasSettled unmarked refl_status = record {
    unmarked = rw lookup-brought (rw ours unmarked);
    same_status = ground arith;
    same_annotations = λ k other. rw lookup-brought (rw other);
  }

  -- With a server that accepts the updates and answers with what it was sent, and a comparison that
  -- finds no difference between the pod's status and itself, `bring_status` for an unmarked chaperon
  -- sends what is due, at most one update of the status and one of the annotations, and succeeds; the
  -- chaperon as updated has settled, and the same step on it makes no call.
  pub bring_status-settles :
      Accepts r
      → lookup annotation_key_pod_missing_since chaperon.meta.annotations ≡ none
      → r.status_differs pod.status pod.status ≡ false
      → (run (bring_status r chaperon pod) ≡ (ok none, updates))
        × HasSettled r brought pod
        × (run (bring_status r brought pod) ≡ (ok none, []))
  bring_status-settles accepting unmarked refl_status = (
    bring_status_lem accepting,
    brought-HasSettled unmarked refl_status,
    quiet (brought-HasSettled unmarked refl_status),
  )
    where
      quiet : HasSettled r brought pod → run (bring_status r brought pod) ≡ (ok none, [])
      quiet s =
          unfold run bring_status bring_annotations in
          rw (s.same_status) (
            rw (
              (need_update_iff brought.meta.annotations pod.meta.annotations).1 s.same_annotations))
