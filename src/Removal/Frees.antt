-- ===== src/Removal/Frees.antt =====
-- The hook frees what the controllers and the webhook have put finalizers on.
use admiralty.Base.{String, ◌↔◌, ◌≡◌, true, Option, List, Among, has_key}
use admiralty.Common.{is_ours, label_key_has_finalizer}
use admiralty.Kube.{Meta, Pod, PodSpec}
use admiralty.Agent.{get_all}
use admiralty.Follow
use admiralty.Follow.{hold}
use admiralty.Ingress
use admiralty.Ingress.{Ingress, hold_ingress}
use admiralty.Webhook.{Mutator, finish}
use admiralty.Removal.{Kind}

-- What this program has put the finalizer on: an object that a follow controller holds, an ingress,
-- which has a controller of its own kind, or a pod that the webhook has finished.
pub data Written (f : String) : Meta → Type 1 where
  followed :
      {O : Type 0} (kind : Follow.Kind O) (r : Follow.Reconciler O) (o : O)
      → f ≡ r.target.finalizer
      → Written f (kind.meta (hold kind r o))
  ingress :
      (r : Ingress.Reconciler) (o : Ingress)
      → f ≡ r.base.target.finalizer
      → Written f (hold_ingress r o).meta
  proxied :
      (m : Mutator) (pod : Pod) (given : Option PodSpec)
      → Among f (get_all pod.meta.namespace m.known_finalizers)
      → Written f (finish m pod given).meta

abbrev HasAndShows : String → Meta → Type 0
HasAndShows f o = (has_key label_key_has_finalizer o.labels ≡ true) × Among f o.finalizers

-- Those of the finalizers that are this program's.
abbrev pub OursOf : List String → List String → Type 0
OursOf finalizers fs = (g : String) → Among g fs ↔ Among g finalizers × (is_ours g ≡ true)
