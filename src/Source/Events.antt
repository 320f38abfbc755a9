-- ===== src/Source/Events.antt =====
-- The events that put sources and cluster sources on the queue: their own, and those of service
-- accounts and bindings, which carry a reference to their owner. Both kinds of owner are looked for
-- at each event of the latter.
use admiralty.Base.{
  String, ◌<>◌, ◌≡◌, ◌≢◌, refl, ap, ◌∙◌, some, List, [], ◌∷◌, ◌++◌, Result, ok, err, Error, Yields,
  Yields-bind, Yields-return,
}
use admiralty.Kube.{Meta, OwnerReference}
use admiralty.Controller.{Event, handle_all_with}
use admiralty.Controller.Events.{
  Keys, IsLawful, on_add_update, on_all, enqueue, enqueue_owner, enqueue_owner_found,
  enqueue_owner_other, enqueue_owner_missing,
}
use admiralty.Source.{Source, ClusterSource, Reconciler, Identity, source_identity, new_binding}

-- The events of the informers that `NewController` registers handlers with.
pub data Watched : Type 0 where
  of_source : Event Source → Watched
  of_cluster_source : Event ClusterSource → Watched
  of_service_account : Event Meta → Watched
  of_role_binding : Event Meta → Watched
  of_cluster_role_binding : Event Meta → Watched

module _ (keys : Keys) (r : Reconciler) where
  abbrev source_meta : Result Source → Result Meta
  source_meta (ok src) = ok src.meta
  source_meta (err e) = err e

  abbrev cluster_source_meta : Result ClusterSource → Result Meta
  cluster_source_meta (ok src) = ok src.meta
  cluster_source_meta (err e) = err e

  abbrev get_source : String → String → Result Meta
  get_source namespace name = source_meta (r.source_lister namespace name)

  -- The namespace of the object is not looked at.
  abbrev get_cluster_source : String → String → Result Meta
  get_cluster_source namespace name = cluster_source_meta (r.cluster_source_lister name)

  -- The two handlers of an informer of objects with an owner.
  abbrev enqueue_owners : Meta → List String
  enqueue_owners object =
      enqueue_owner keys "Source" get_source object
      ++ enqueue_owner keys "ClusterSource" get_cluster_source object

  pub enqueued : Watched → List String
  enqueued (of_source event) = on_add_update (λ src. enqueue keys src.meta) event
  enqueued (of_cluster_source event) = on_add_update (λ src. enqueue keys src.meta) event
  enqueued (of_service_account event) = on_all enqueue_owners event
  enqueued (of_role_binding event) = on_all enqueue_owners event
  enqueued (of_cluster_role_binding event) = on_all enqueue_owners event

source_identity-owner :
    (r : Reconciler) (src : Source)
    → Yields (λ who. who.owner_ref ≡ r.new_controller_ref "Source" src.meta) (source_identity r src)
unfolding source_identity
source_identity-owner r src =
    Yields-bind _ _ λ binding. Yields-bind _ _ λ viewer. Yields-return _ refl

-- `GetControllerOf` finds the one reference that an object has, where `NewControllerRef` made it.
abbrev pub Controls : Keys → OwnerReference → Type 0
Controls keys ref = (m : Meta) → m.owner_references ≡ ref ∷ [] → keys.controller_of m ≡ some ref

-- `role_binding` and `cluster_role_binding` are stored as `Handle` makes them for a source: with the
-- owner of its new binding and of its new viewer binding. Every event of the role binding puts the
-- source's key on the queue. No event of the cluster role binding puts any key: the lister is asked
-- for the source in the namespace of the binding, which has none.
pub binding-Enqueues :
    (keys : Keys) (r : Reconciler) (src : Source) (who : Identity)
    (role_binding cluster_role_binding : Meta) (bound cluster_bound : Event Meta) (e : Error)
    → IsLawful keys
    → Controls keys (r.new_controller_ref "Source" src.meta)
    → (r.new_controller_ref "Source" src.meta).kind ≡ "Source"
    → (r.new_controller_ref "Source" src.meta).name ≡ src.meta.name
    → src.meta.namespace ≢ ""
    → (source_identity r src []).0 ≡ ok who
    → r.source_lister src.meta.namespace src.meta.name ≡ ok src
    → r.source_lister "" src.meta.name ≡ err e
    → handle_all_with bound ≡ some role_binding
    → handle_all_with cluster_bound ≡ some cluster_role_binding
    → role_binding.namespace ≡ src.meta.namespace
    → cluster_role_binding.namespace ≡ ""
    → role_binding.owner_references
      ≡ (new_binding r who who.binding_name r.source_role).owner_references
    → cluster_role_binding.owner_references
      ≡ (new_binding r who who.viewer_name r.cluster_summary_viewer_role).owner_references
    → (enqueued keys r (of_role_binding bound)
        ≡ (src.meta.namespace <> ("/" <> src.meta.name)) ∷ [])
      × (enqueued keys r (of_cluster_role_binding cluster_bound) ≡ [])
unfolding enqueued new_binding
binding-Enqueues keys r src who role_binding cluster_role_binding bound cluster_bound e law controls
      kind name spaced identified found unspaced handed cluster_handed here nowhere refers
      cluster_refers =
    let ref : OwnerReference = r.new_controller_ref "Source" src.meta in
    let is_ref : who.owner_ref ≡ ref = (source_identity-owner r src).at [] who identified in
    let owned = controls role_binding (refers ∙ ap (λ o. o ∷ []) is_ref) in
    let cluster_owned = controls cluster_role_binding (cluster_refers ∙ ap (λ o. o ∷ []) is_ref) in
    let other : ref.kind ≢ "ClusterSource" = λ k. cc in
    (
      rw
          (
            handed,
            enqueue_owner_found keys "Source" (get_source keys r) role_binding ref owned src.meta
                law kind (rw (here, name, found) refl) spaced,
            enqueue_owner_other keys "ClusterSource" (get_cluster_source keys r) role_binding ref
                owned other,
          )
          refl,
      rw
          (
            cluster_handed,
            enqueue_owner_missing keys "Source" (get_source keys r) cluster_role_binding ref
                cluster_owned e (rw (nowhere, name, unspaced) refl),
            enqueue_owner_other keys "ClusterSource" (get_cluster_source keys r)
                cluster_role_binding ref cluster_owned other,
          )
          refl,
    )
