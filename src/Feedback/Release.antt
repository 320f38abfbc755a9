-- ===== src/Feedback/Release.antt =====
-- When the feedback controller lets a proxy pod go: its finalizer, which keeps the pod until the
-- delegate is gone, comes off only once the target cluster has no candidate left.
use admiralty.Base.{
  run, any, [], ◌∷◌, ◌==◌, ℕ, String, ◌≡◌, refl, true, Option, none, some, ◌⊎◌, inl, inr, All, ok,
  Error, Makes, Yields, makes_rules, Makes-bind-Yields, Makes-bind, Yields-if, Yields-bind,
  Yields-return, All-calls, Makes-send, calls, ◌>>=◌, lift,
}
use admiralty.Kube.{Pod, PodChaperon}
use admiralty.Controller.Finalizers.{erase, has_finalizer_found}
use admiralty.Feedback.{
  Call, delete_chaperon, update_pod, update_pod_status, update_chaperon, delete_pod, Reconciler,
  delete_candidate, remove_finalizer, is_leaving, release, delete_missing, update_annotations,
  update_status, update_remote, follow_delegate, drop_finalizer, find_candidate, settle, reconcile,
  handle,
}

module _ (r : Reconciler) (proxy_pod : Pod) (candidate : Option PodChaperon) where
  open r use {server, target}

  -- An update of a pod keeps the finalizers of the proxy pod, or it comes after the delegate is
  -- gone from the target cluster, for a pod that leaves the target.
  abbrev pub SparesFinalizers : Call → Type 0
  SparesFinalizers (update_pod namespace pod) =
      (pod.meta.finalizers ≡ proxy_pod.meta.finalizers)
      ⊎ ((candidate ≡ none) × (is_leaving r proxy_pod ≡ true))
  SparesFinalizers (delete_chaperon namespace name) = Unit
  SparesFinalizers (update_pod_status namespace pod) = Unit
  SparesFinalizers (update_chaperon namespace chaperon) = Unit
  SparesFinalizers (delete_pod namespace name) = Unit

module _ (r : Reconciler) (proxy_pod : Pod) (c : Option PodChaperon) where
  open r use {server, target}

  delete_candidate-Makes :
      (on_error : Error → Error) (namespace name : String)
      → Makes (SparesFinalizers r proxy_pod c) (delete_candidate r on_error namespace name)
  unfolding delete_candidate
  delete_candidate-Makes on_error namespace name = search makes_rules

  delete_missing-Makes :
      (namespace : String) (d : Option PodChaperon)
      → Makes (SparesFinalizers r proxy_pod c) (delete_missing r namespace d)
  unfolding delete_missing
  delete_missing-Makes namespace none = search makes_rules
  delete_missing-Makes namespace (some d) = search (makes_rules, delete_candidate-Makes)

  update_annotations-Makes :
      (namespace : String) (d : PodChaperon)
      → Makes (SparesFinalizers r proxy_pod c) (update_annotations r namespace proxy_pod d)
  unfolding update_annotations
  update_annotations-Makes namespace d = search (makes_rules, inl)

  update_status-Makes :
      (namespace : String) (p : Pod) (d : PodChaperon)
      → Makes (SparesFinalizers r proxy_pod c) (update_status r namespace p d)
  unfolding update_status
  update_status-Makes namespace p d = search makes_rules

  update_remote-Makes :
      (namespace : String) (d : PodChaperon)
      → Makes (SparesFinalizers r proxy_pod c) (update_remote r namespace d)
  unfolding update_remote
  update_remote-Makes namespace d = search makes_rules

ruleset safe_rules = (
  makes_rules, delete_candidate-Makes, delete_missing-Makes, update_annotations-Makes,
  update_status-Makes, update_remote-Makes,
)

module _ (r : Reconciler) (proxy_pod : Pod) where
  open r use {server, target}

  follow_delegate-Makes :
      (namespace name : String) (d : PodChaperon) (p : Pod)
      → p ≡ proxy_pod
      → Makes (SparesFinalizers r proxy_pod (some d)) (follow_delegate r namespace name p (some d))
  unfolding follow_delegate
  follow_delegate-Makes namespace name d p e = rw e (search safe_rules)

  release-Makes :
      (namespace : String) (d : PodChaperon)
      → Makes (SparesFinalizers r proxy_pod (some d)) (release r namespace proxy_pod (some d))
  unfolding release
  release-Makes namespace d = search safe_rules

  release-Yields :
      (namespace : String) (d : PodChaperon)
      → Yields (λ p. p ≡ proxy_pod) (release r namespace proxy_pod (some d))
  unfolding release
  release-Yields namespace d =
      Yields-if (is_leaving r proxy_pod) _ _ (search (Yields-bind, Yields-return))
        (Yields-return proxy_pod refl)

  drop_finalizer-Makes :
      (o : Option ℕ)
      → is_leaving r proxy_pod ≡ true
      → Makes (SparesFinalizers r proxy_pod none) (drop_finalizer r proxy_pod o)
  unfolding drop_finalizer remove_finalizer
  drop_finalizer-Makes none e = search makes_rules
  drop_finalizer-Makes (some j) e = Makes-send _ _ (inr (refl, e))

  release-none-Makes :
      (namespace : String)
      → Makes (SparesFinalizers r proxy_pod none) (release r namespace proxy_pod none)
  unfolding release
  release-none-Makes namespace = search (makes_rules, drop_finalizer-Makes)

  settle-Makes :
      (namespace name : String) (c : Option PodChaperon)
      → Makes (SparesFinalizers r proxy_pod c) (settle r namespace name proxy_pod c)
  unfolding settle
  settle-Makes namespace name none =
      Makes-bind _ _ (release-none-Makes namespace) λ p. unfold follow_delegate in search safe_rules
  settle-Makes namespace name (some d) =
      Makes-bind-Yields _ _ (release-Makes namespace d) (release-Yields namespace d) λ p e.
        Makes-bind _ _ (delete_missing-Makes r proxy_pod (some d) namespace (some d)) λ _.
          let followed = follow_delegate-Makes namespace name d p e in
          search (makes_rules, followed)

module _ (r : Reconciler) (key : String) (proxy_pod : Pod) (c : Option PodChaperon) where
  abbrev namespace : String
  namespace = (r.split_key key).0

  abbrev name : String
  name = (r.split_key key).1

  -- Where the listers answer, `Handle` is the part that follows.
  handle-eq-settle :
      r.pods_lister namespace name ≡ ok proxy_pod
      → find_candidate r namespace proxy_pod ≡ ok c
      → handle r key ≡ settle r namespace name proxy_pod c
  unfolding handle reconcile lift ◌>>=◌
  handle-eq-settle listed found = rw (listed, handle) (rw (found, reconcile))

  -- Where the listers answer with the proxy pod and its candidate, if any, every update of a
  -- pod in a whole `Handle` keeps the proxy pod's finalizers, or is made for a pod that leaves
  -- the target and has no candidate there.
  pub handle-SparesFinalizers :
      r.pods_lister namespace name ≡ ok proxy_pod
      → find_candidate r namespace proxy_pod ≡ ok c
      → All (SparesFinalizers r proxy_pod c) (calls (handle r key))
  handle-SparesFinalizers listed found =
      rw (handle-eq-settle listed found) (All-calls _ (settle-Makes r proxy_pod namespace name c))

-- For a pod that leaves, holds the target's finalizer and has no candidate left, `release`
-- makes one call, an update of the pod in which the first occurrence of that finalizer is gone
-- and all else is as before, and it gives what the server answers.
release_lem :
    (r : Reconciler) (namespace : String) (proxy_pod : Pod)
    → is_leaving r proxy_pod ≡ true
    → any (λ f. f == r.target.finalizer) proxy_pod.meta.finalizers ≡ true
    → let released = update_pod proxy_pod.meta.namespace (record proxy_pod {
      meta = record proxy_pod.meta {
        finalizers = erase r.target.finalizer proxy_pod.meta.finalizers;
      };
    }) in
      run (release r namespace proxy_pod none) ≡ (r.server [] released, released ∷ [])
unfolding release drop_finalizer remove_finalizer run
release_lem r namespace proxy_pod leaving held =
    let (j, found, _, erased) =
      has_finalizer_found r.target.finalizer proxy_pod.meta.finalizers held in
    rw leaving (rw found (rw erased))
