-- ===== src/Chaperon/Events.antt =====
-- The events that put pod chaperons on the queue: their own, and those of the pods that they control.
use admiralty.Base.{String, ◌<>◌, ◌≡◌, ◌≢◌, refl, some, List, [], ◌∷◌, Result, ok, err}
use admiralty.Kube.{Meta, Pod, PodChaperon}
use admiralty.Controller.{Event, handle_all_with}
use admiralty.Controller.Events.{
  Keys, IsLawful, on_add_update, on_all, enqueue, enqueue_owner, enqueue_owner_found,
}
use admiralty.Chaperon.{Reconciler, new_pod}

-- The events of the informers that `NewController` registers handlers with.
pub data Watched : Type 0 where
  of_pod_chaperon : Event PodChaperon → Watched
  of_pod : Event Pod → Watched

module _ (keys : Keys) (r : Reconciler) where
  abbrev chaperon_meta : Result PodChaperon → Result Meta
  chaperon_meta (ok chaperon) = ok chaperon.meta
  chaperon_meta (err e) = err e

  -- getPodChaperon
  abbrev get_pod_chaperon : String → String → Result Meta
  get_pod_chaperon namespace name = chaperon_meta (r.pod_chaperons_lister namespace name)

  pub enqueued : Watched → List String
  enqueued (of_pod_chaperon event) = on_add_update (λ c. enqueue keys c.meta) event
  enqueued (of_pod event) =
      on_all (λ pod. enqueue_owner keys "PodChaperon" get_pod_chaperon pod.meta) event

-- Every event of the pod of a chaperon that is there puts the chaperon's key on the queue.
new_pod-Enqueues :
    (keys : Keys) (r : Reconciler) (chaperon : PodChaperon) (event : Event Pod)
    → IsLawful keys
    → (r.new_controller_ref chaperon.meta "PodChaperon").kind ≡ "PodChaperon"
    → (r.new_controller_ref chaperon.meta "PodChaperon").name ≡ chaperon.meta.name
    → ((m : Meta)
        → m.owner_references ≡ r.new_controller_ref chaperon.meta "PodChaperon" ∷ []
        → keys.controller_of m ≡ some (r.new_controller_ref chaperon.meta "PodChaperon"))
    → chaperon.meta.namespace ≢ ""
    → r.pod_chaperons_lister chaperon.meta.namespace chaperon.meta.name ≡ ok chaperon
    → handle_all_with event ≡ some (new_pod r chaperon)
    → enqueued keys r (of_pod event) ≡ (chaperon.meta.namespace <> ("/" <> chaperon.meta.name)) ∷ []
unfolding enqueued new_pod
new_pod-Enqueues keys r chaperon event law kind name controls spaced found handed = rw handed (
    enqueue_owner_found keys "PodChaperon" (get_pod_chaperon keys r) (new_pod r chaperon).meta
      (r.new_controller_ref chaperon.meta "PodChaperon") (controls _ refl) chaperon.meta law kind
      (rw (name, found) refl) spaced)
