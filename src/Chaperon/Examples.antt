-- ===== src/Chaperon/Examples.antt =====
-- The chaperon controller on small objects.
use Prim.Native.Nat.{◌/◌}
use admiralty.Base.{
  ◌⊎◌, ℕ, zero, suc, ◌+◌, ◌*◌, ap, String, ◌≡◌, ◌≢◌, refl, false, none, some, List, [], ◌∷◌, All,
  lookup, Result, ok, err, Error, not_found, run, calls, arith, eq_iff, ◌==◌,
}
use admiralty.Kube.{Pod, PodChaperon}
use admiralty.Kube.Samples.{sample_pod, sample_chaperon}
use admiralty.Chaperon.{
  Call, Answer, create_pod, patch_missing, update_status, update, Reconciler, second, minute,
  missing_since, bring_status, handle,
}
use admiralty.Chaperon.Create.{CreatesDue, handle-CreatesDue}
use admiralty.Chaperon.Settled.{HasSettled, Accepts, updates, brought, bring_status-settles}
use admiralty.Chaperon.Recreate.{marked_at, ReadsSeconds, Rests, Recreates, pass, handle-Recreates}

abbrev echo : (log : List Call) (c : Call) → Result (Answer c)
echo log (create_pod namespace pod) = ok pod
echo log (patch_missing namespace name since) = ok tt
echo log (update_status namespace chaperon) = ok chaperon
echo log (update namespace chaperon) = ok chaperon

abbrev missing : Error
missing = record { reason = not_found; message = "not found" }

-- Two minutes after the start, with times written as one text.
abbrev reconciler : PodChaperon → Result Pod → Reconciler
reconciler chaperon listed = record {
  server = echo;
  pods_lister = λ namespace name. listed;
  pod_chaperons_lister = λ namespace name. ok chaperon;
  split_key = λ key. ("ns", "p");
  now = 2 * minute;
  format_time = λ t. "start";
  parse_time = λ text. ok 0;
  is_controlled_by = λ child parent. child.uid == "u";
  new_controller_ref = λ parent kind. record { kind = kind; name = parent.name; uid = parent.uid };
  status_differs = λ s t. false;
}

abbrev fresh : PodChaperon
fresh = record (sample_chaperon []) { status = record (sample_chaperon []).status { phase = "" } }

handle-CreatesDue_example :
    All
      (CreatesDue (reconciler fresh (err missing)) fresh none)
      (calls (handle (reconciler fresh (err missing)) "ns/p"))
unfolding missing_since lookup
handle-CreatesDue_example =
    handle-CreatesDue (reconciler fresh (err missing)) "ns/p" fresh none refl refl

abbrev chaperon : PodChaperon
chaperon = sample_chaperon []

abbrev pod : Pod
pod = sample_pod "node"

settled : HasSettled (reconciler chaperon (ok pod)) chaperon pod
unfolding lookup
settled = record { unmarked = refl; same_status = refl; same_annotations = λ k other. refl }

accepting : Accepts (reconciler chaperon (ok pod))
accepting = record {
  accepts_status = λ log namespace c. refl;
  accepts_update = λ log namespace c. refl;
}

abbrev annotated : Pod
annotated = record pod { meta = record pod.meta { annotations = ("x", "1") ∷ [] } }

bring_status-settles_example :
    (run (bring_status (reconciler chaperon (ok pod)) chaperon annotated)
      ≡ (ok none, updates (reconciler chaperon (ok pod)) chaperon annotated))
    × HasSettled
        (reconciler chaperon (ok pod))
        (brought (reconciler chaperon (ok pod)) chaperon annotated)
        annotated
    × (run (
          bring_status
            (reconciler chaperon (ok pod))
            (brought (reconciler chaperon (ok pod)) chaperon annotated)
            annotated)
        ≡ (ok none, []))
unfolding lookup
bring_status-settles_example =
    bring_status-settles (reconciler chaperon (ok pod)) chaperon annotated accepting refl refl

running_not_empty : ◌≢◌ {A = String} "Running" ""
running_not_empty = ground (arith, eq_iff "Running" "")

-- A mark for each whole second, and the seconds of a text of marks.
abbrev seconds : ℕ → String
seconds zero = String.[]
seconds (suc n) = String.◌∷◌ "s" (seconds n)

abbrev marks : String → ℕ
marks String.[] = 0
marks (String.◌∷◌ c s) = suc (marks s)

marks-seconds : (n : ℕ) → marks (seconds n) ≡ n
marks-seconds zero = refl
marks-seconds (suc n) = ap suc (marks-seconds n)

abbrev parse : String → Result ℕ
parse s = ok (marks s * second)

reads_seconds : ReadsSeconds (λ t. seconds (t / second)) parse
reads_seconds t = (
  t / second * second,
  ap (λ n. ok (n * second)) (marks-seconds (t / second)),
  omega arith,
  omega arith,
)

-- Lost a second and a half after the start, and looked at two minutes after it.
abbrev on_watch : Reconciler
on_watch = record (reconciler chaperon (err missing)) {
  format_time = λ t. seconds (t / second);
  parse_time = parse;
}

abbrev loss : ℕ
loss = second + 500000000

handle-Recreates_example :
    let text = on_watch.format_time loss in
    let after = pass on_watch (2 * minute) (marked_at chaperon text) "ns/p" in
    (pass on_watch loss chaperon "ns/p" ≡ patch_missing "ns" "p" (some text) ∷ [])
    × (Rests chaperon (loss + minute) (2 * minute) after
        ⊎ Recreates chaperon (loss + minute) (2 * minute + second) after)
unfolding lookup
handle-Recreates_example =
    handle-Recreates on_watch chaperon "ns/p" missing loss (2 * minute) refl refl running_not_empty
      refl reads_seconds
