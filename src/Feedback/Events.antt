-- ===== src/Feedback/Events.antt =====
-- The events that put proxy pods on the queue: those of the pods themselves, and those of their
-- delegates in the target cluster.
use admiralty.Base.{
  String, ◌<>◌, ◌≡◌, ◌≢◌, refl, sym, subst, ◌∙◌, Bool, true, none, some, List, [], ◌∷◌, ap, inl,
  inr, any, keep, Among, Among-keep, ◌==◌, eq_refl, Result, ok, err, Error, is_not_found, run,
  calls, if◌then◌else◌,
}
use admiralty.Kube.{Pod, PodChaperon}
use admiralty.Controller.{
  Event, handle_all_with, enqueue_remote_controller, index_by_remote_controller,
}
use admiralty.DelegatePod.Make.{stored, make_delegate_pod-index}
use admiralty.Controller.Events.{index-enqueue, Keys, to_list, on_add_update, on_all, enqueue}
use admiralty.DelegatePod.{is_proxy, make_delegate_pod}
use admiralty.Feedback.{Call, delete_chaperon, Reconciler, handle}
use admiralty.Feedback.Orphans.{Deletes, deletes, handle_orphans}

-- The events of the two informers that `NewController` registers handlers with.
pub data Watched : Type 0 where
  of_pod : Event Pod → Watched
  of_pod_chaperon : Event PodChaperon → Watched

module _ (keys : Keys) (cluster_name : String) where
  enqueue_proxy_pod : Pod → List String
  enqueue_proxy_pod pod = if is_proxy pod then enqueue keys pod.meta else []

  -- The keys that an event puts on the queue.
  pub enqueued : Watched → List String
  unfolding enqueue_proxy_pod
  enqueued (of_pod event) = on_add_update enqueue_proxy_pod event
  enqueued (of_pod_chaperon event) =
      on_all (λ c. to_list (enqueue_remote_controller cluster_name c.meta)) event

-- `cache.Indexer`: the chaperons of the target that the index function files under a key.
abbrev pub Indexes : Reconciler → List PodChaperon → Type 0
Indexes r chaperons =
    (key : String)
    → r.pod_chaperon_index key
      ≡ keep (λ c. any (λ k. k == key) (index_by_remote_controller r.cluster_name c.meta)) chaperons

Among-deletes_log :
    (c : Call) (namespace : String) (candidates : List PodChaperon) (log : List Call)
    → Among c log
    → Among c (deletes namespace candidates log)
Among-deletes_log c namespace [] log there = there
Among-deletes_log c namespace (candidate ∷ candidates) log there =
    Among-deletes_log c namespace candidates _ (inr there)

Among-deletes :
    (c : PodChaperon) (namespace : String) (candidates : List PodChaperon) (log : List Call)
    → Among c candidates
    → Among (delete_chaperon namespace c.meta.name) (deletes namespace candidates log)
Among-deletes c namespace [] log there = absurd there
Among-deletes c namespace (candidate ∷ candidates) log (inl same) =
    Among-deletes_log _ namespace candidates _
      (inl (ap (λ c. delete_chaperon namespace c.meta.name) same))
Among-deletes c namespace (candidate ∷ candidates) log (inr there) =
    Among-deletes c namespace candidates _ there

-- A delegate whose proxy pod is gone goes too. `MakeDelegatePod` has made the chaperon of a proxy
-- pod with a name and a namespace, and the target has stored it: every event of the chaperon puts
-- the proxy pod's key on the queue, and no other; and where the index has the chaperon, the proxy
-- pod is not found, and deletions succeed or find nothing, `Handle` for that key asks for the
-- chaperon's deletion and succeeds.
pub handle-DeletesOrphan :
    (keys : Keys) (r : Reconciler) (unmarshal : String → Result Pod)
    (compile : String → Result (String → Bool)) (proxy : Pod) (c : PodChaperon) (name uid : String)
    (event : Event PodChaperon) (chaperons : List PodChaperon) (e : Error)
    → proxy.meta.namespace ≢ ""
    → proxy.meta.name ≢ ""
    → make_delegate_pod unmarshal compile proxy r.cluster_name ≡ ok c
    → handle_all_with event ≡ some (stored c name uid)
    → Indexes r chaperons
    → Among (stored c name uid) chaperons
    → let key = proxy.meta.namespace <> ("/" <> proxy.meta.name) in
      r.split_key key ≡ (proxy.meta.namespace, proxy.meta.name)
      → r.pods_lister proxy.meta.namespace proxy.meta.name ≡ err e
      → is_not_found e ≡ true
      → Deletes r
      → (enqueued keys r.cluster_name (of_pod_chaperon event) ≡ key ∷ [])
        × ((run (handle r key)).0 ≡ ok none)
        × Among (delete_chaperon proxy.meta.namespace name) (calls (handle r key))
unfolding enqueued
handle-DeletesOrphan keys r unmarshal compile proxy c name uid event chaperons e spaced named made
      handed indexed there split listed gone deleting =
    let key : String = proxy.meta.namespace <> ("/" <> proxy.meta.name) in
    let chaperon : PodChaperon = stored c name uid in
    let filed =
      make_delegate_pod-index unmarshal compile proxy r.cluster_name c spaced named made name uid in
    let filed_there : any (λ k. k == key) (index_by_remote_controller r.cluster_name chaperon.meta)
        ≡ true =
      rw (filed, eq_refl key) refl in
    let ran = handle_orphans r key e deleting (rw split listed) gone in
    (
      rw handed (index-enqueue r.cluster_name chaperon.meta ∙ filed),
      ap (λ x. x.0) ran,
      subst (Among (delete_chaperon proxy.meta.namespace name)) (sym (ap (λ x. x.1) ran)) (
          rw (split, indexed key)
            (Among-deletes chaperon proxy.meta.namespace _ []
              (Among-keep _ chaperon chaperons filed_there there))),
    )
