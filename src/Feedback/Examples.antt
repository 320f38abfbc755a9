-- ===== src/Feedback/Examples.antt =====
-- The feedback controller on small objects.
use admiralty.Base.{
  ◌≡◌, refl, true, false, none, some, List, [], ◌∷◌, inl, any, keep, Among, ◌==◌, All, lookup,
  Result, ok, err, Error, not_found, run, calls,
}
use admiralty.Kube.{Pod, PodChaperon}
use admiralty.Kube.Samples.{sample_pod, sample_chaperon}
use admiralty.Agent.{Target}
use admiralty.Feedback.{
  Call, Answer, delete_chaperon, update_pod, update_pod_status, update_chaperon, delete_pod,
  Reconciler, release, find_candidate, handle, reconcile, settle, delete_candidate, delete_missing,
  drop_finalizer, remove_finalizer,
}
use admiralty.Feedback.Release.{SparesFinalizers, handle-SparesFinalizers}
use admiralty.Feedback.Events.{enqueued, of_pod_chaperon, handle-DeletesOrphan}
use admiralty.Controller.{has_finalizer, added, handle_all_with, index_by_remote_controller}
use admiralty.Controller.Events.{Keys}
use admiralty.DelegatePod.Make.{stored}
use admiralty.DelegatePod.Samples.{proxy, unmarshal, compile, made, makes}

abbrev echo : (log : List Call) (c : Call) → Result (Answer c)
echo log (delete_chaperon namespace name) = ok tt
echo log (update_pod namespace pod) = ok pod
echo log (update_pod_status namespace pod) = ok pod
echo log (update_chaperon namespace chaperon) = ok chaperon
echo log (delete_pod namespace name) = ok tt

abbrev target : Target
target = record {
  name = "t";
  self = false;
  namespace = "";
  excluded_labels_regexp = none;
  virtual_node_name = "admiralty-t";
  finalizer = "multicluster.admiralty.io/t";
}

abbrev missing : Error
missing = record { reason = not_found; message = "not found" }

abbrev elsewhere : Pod
elsewhere = sample_pod "admiralty-other"

abbrev reconciler : Result Pod → List PodChaperon → Reconciler
reconciler listed chaperons = record {
  cluster_name = "source";
  target = target;
  server = echo;
  pods_lister = λ namespace name. listed;
  pod_chaperons_lister = λ namespace selector. ok chaperons;
  pod_chaperon_index = λ key. chaperons;
  split_key = λ key. ("ns", "p");
  same_status = λ s t. true;
}

abbrev candidate : PodChaperon
candidate = sample_chaperon (("x", "1") ∷ [])

-- A pod that was scheduled elsewhere: its candidate goes first, and then its finalizer.
two_passes :
    (calls (handle (reconciler (ok elsewhere) (candidate ∷ [])) "ns/p")
      ≡ delete_chaperon "ns" "p" ∷ [])
    × (calls (handle (reconciler (ok elsewhere) []) "ns/p")
        ≡ update_pod "ns"
            (record elsewhere { meta = record elsewhere.meta { finalizers = "a" ∷ "b" ∷ [] } })
          ∷ [])
unfolding handle run reconcile find_candidate settle release delete_candidate delete_missing
    drop_finalizer remove_finalizer has_finalizer lookup
two_passes = (refl, refl)

abbrev bound : Pod
bound = sample_pod "admiralty-t"

handle-SparesFinalizers_example :
    All
      (SparesFinalizers (reconciler (ok bound) (candidate ∷ [])) bound (some candidate))
      (calls (handle (reconciler (ok bound) (candidate ∷ [])) "ns/p"))
unfolding find_candidate
handle-SparesFinalizers_example =
    handle-SparesFinalizers (reconciler (ok bound) (candidate ∷ [])) "ns/p" bound (some candidate)
      refl refl

abbrev deleted : Reconciler
deleted = record (reconciler (err missing) []) {
  cluster_name = "cluster";
  pod_chaperon_index = λ key.
      keep (λ c. any (λ k. k == key) (index_by_remote_controller "cluster" c.meta))
        (stored made "p-x" "c" ∷ []);
}

abbrev keys : Keys
keys = record { controller_of = λ m. none; namespace_key = λ m. ok m.name }

handle-DeletesOrphan_example :
    (enqueued keys "cluster" (of_pod_chaperon (added (stored made "p-x" "c"))) ≡ "ns/p" ∷ [])
    × ((run (handle deleted "ns/p")).0 ≡ ok none)
    × Among (delete_chaperon "ns" "p-x") (calls (handle deleted "ns/p"))
unfolding handle_all_with
handle-DeletesOrphan_example =
    handle-DeletesOrphan keys deleted unmarshal compile proxy made "p-x" "c"
      (added (stored made "p-x" "c")) (stored made "p-x" "c" ∷ []) missing (λ e. cc) (λ e. cc) makes
      refl (λ key. refl) (inl refl) refl refl refl (λ log namespace name. inl refl)
