-- ===== src/Feedback/Orphans.antt =====
-- When the proxy pod is gone, its chaperons in the target cluster go.
use admiralty.Base.{
  String, ◌≡◌, refl, true, none, List, [], ◌∷◌, ◌⊎◌, ok, err, Error, is_not_found, return, ◌>>=◌,
  send, try, run, arith,
}
use admiralty.Kube.{PodChaperon}
use admiralty.Feedback.{Call, delete_chaperon, Reconciler, delete_candidate, delete_orphans, handle}

-- The server deletes a chaperon, or answers that there is none.
abbrev pub Deletes : Reconciler → Type 0
Deletes r =
    (log : List Call) (namespace name : String)
    → (r.server log (delete_chaperon namespace name) ≡ ok tt)
      ⊎ ((e : Error) × (r.server log (delete_chaperon namespace name) ≡ err e)
          × (is_not_found e ≡ true))

-- One delete call for each candidate, the last one first.
abbrev pub deletes : String → List PodChaperon → List Call → List Call
deletes namespace [] log = log
deletes namespace (candidate ∷ candidates) log =
    deletes namespace candidates (delete_chaperon namespace candidate.meta.name ∷ log)

module _ (r : Reconciler) (deleting : Deletes r) (namespace : String) where
  delete_orphans_lem :
      (candidates : List PodChaperon) (log : List Call)
      → delete_orphans r namespace candidates log ≡ (ok none, deletes namespace candidates log)
  unfolding delete_orphans delete_candidate return ◌>>=◌ send try
  delete_orphans_lem [] log = refl
  delete_orphans_lem (candidate ∷ candidates) log = ground (
    arith,
    deleting log namespace candidate.meta.name,
    delete_orphans_lem candidates (delete_chaperon namespace candidate.meta.name ∷ log),
  )

-- If the proxy pod is not found and every deletion succeeds or finds nothing to delete,
-- `Handle` deletes every chaperon that is filed under its key, each once and in order, makes no
-- other call, and succeeds.
pub handle_orphans :
    (r : Reconciler) (key : String) (e : Error)
    → Deletes r
    → r.pods_lister (r.split_key key).0 (r.split_key key).1 ≡ err e
    → is_not_found e ≡ true
    → run (handle r key) ≡ (ok none, deletes (r.split_key key).0 (r.pod_chaperon_index key) [])
unfolding handle run
handle_orphans r key e deleting listed gone =
    rw (listed, handle, gone)
      (delete_orphans_lem r deleting (r.split_key key).0 (r.pod_chaperon_index key) [])
