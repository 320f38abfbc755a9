-- ===== src/Ingress.antt =====
-- pkg/controllers/follow/ingress/controller.go: ingresses with a service that follows follow too. The
-- code dereferences the HTTP part of a rule with no test: where there is none, the model ends with
-- the error `nil_pointer`, and the index is `none`. A map of an object that was read is nil where it is
-- empty, since empty maps are not written: to assign to an entry of one panics too, with `nil_map`.
pub mod Ownership
pub mod Events
pub mod Update
pub mod Backends
mod Examples
use admiralty.Base.{
  ℕ, String, ◌<>◌, Bool, true, false, not, ◌&&◌, ◌||◌, Option, none, some, List, [], ◌∷◌, ◌++◌, Map,
  is_nil, nil_map, get, insert, has_key, copy_into, refl, ◌==◌, if◌then◌else◌, any, Result, ok, err,
  Error, errorf, is_already_exists, Exec, return, fail, try, request, ◌>>=◌, lift,
}
use admiralty.Common.{
  is_ours, label_key_parent_cluster_name, label_key_has_finalizer, annotation_key_global,
  annotation_key_is_delegate,
}
use admiralty.Kube.{Meta, OwnerReference}
use admiralty.Controller.{has_finalizer, enqueue_object, add_remote_controller_reference}
use admiralty.Follow
use admiralty.Follow.{Kind, Call, create_remote, update_remote, update_local, Plan}

-- A path of a rule is the name of its backend's service, if the backend is one; a rule with no HTTP
-- part is `none`.
pub record IngressSpec : Type 0 where
  pub rules : List (Option (List (Option String)))
  pub other : String

pub record Ingress : Type 0 where
  pub meta : Meta
  pub spec : IngressSpec

abbrev pub ingresses : Kind Ingress
ingresses = record {
  meta = λ s. s.meta;
  with_meta = λ m s. record s { meta = m };
  meta-with_meta = λ m s. refl;
}

-- The metadata of services is all that the controller reads of them.
pub record Reconciler : Type 0 where
  pub base : Follow.Reconciler Ingress
  pub svc_lister : String → String → Result Meta
  pub same_spec : IngressSpec → IngressSpec → Bool

abbrev nil_pointer : Error
nil_pointer = errorf "invalid memory address or nil pointer dereference"

abbrev pub keys_of_paths : String → List (Option String) → List String
keys_of_paths namespace [] = []
keys_of_paths namespace (none ∷ paths) = keys_of_paths namespace paths
keys_of_paths namespace (some name ∷ paths) =
    (namespace <> ("/" <> name)) ∷ keys_of_paths namespace paths

abbrev pub keys_of_rules : String → List (Option (List (Option String))) → Option (List String)
keys_of_rules namespace [] = some []
keys_of_rules namespace (none ∷ rules) = none
keys_of_rules namespace (some paths ∷ rules) = elim (keys_of_rules namespace rules) [
  | none ↦ none
  | some keys ↦ some (keys_of_paths namespace paths ++ keys)
]

unfoldable pub index_ingress_by_service : Ingress → Option (List String)
index_ingress_by_service ingress = keys_of_rules ingress.meta.namespace ingress.spec.rules

-- enqueueIngressForService: the keys that an event of a service puts on the queue
abbrev enqueue_all :
    (Meta → Option OwnerReference) → (Meta → Result String) → List Ingress → List String
enqueue_all controller_of namespace_key [] = []
enqueue_all controller_of namespace_key (ingress ∷ found) =
    elim (enqueue_object controller_of namespace_key ingress.meta) [
      | none ↦ enqueue_all controller_of namespace_key found
      | some key ↦ key ∷ enqueue_all controller_of namespace_key found
    ]

-- Whether an annotation is the user's and the copy does not have it.
pub brings : Map String → Map String → String → Bool
brings remote own k = not (is_ours k) && not (has_key k remote && (get k remote == get k own))

-- The loop that collects those, `rest` of the annotations `own` being left.
pub annotation_diff : Map String → Map String → Map String → Map String
unfolding brings
annotation_diff remote own [] = []
annotation_diff remote own ((k, v) ∷ rest) =
    let diff = annotation_diff remote own rest in
    if brings remote own k then insert k v diff else diff

abbrev pub is_empty : Map String → Bool
is_empty [] = true
is_empty (e ∷ m) = false

abbrev pub enqueue_ingress_for_service :
    (Meta → Option OwnerReference)
    → (Meta → Result String)
    → (String → List Ingress)
    → Meta
    → List String
enqueue_ingress_for_service controller_of namespace_key ingress_index svc =
    enqueue_all controller_of namespace_key (ingress_index (svc.namespace <> ("/" <> svc.name)))

module _ (r : Reconciler) where
  open r use {base}

  -- A service that cannot be read is passed over.
  pub is_global : String → Option String → Bool
  is_global namespace none = false
  is_global namespace (some name) = elim (r.svc_lister namespace name) [
    | err e ↦ false
    | ok svc ↦ get annotation_key_global svc.annotations == "true"
  ]

  abbrev pub follows_rules : String → List (Option (List (Option String))) → Option Bool
  follows_rules namespace [] = some false
  follows_rules namespace (none ∷ rules) = none
  follows_rules namespace (some paths ∷ rules) =
      let rest = follows_rules namespace rules in
      if any (is_global namespace) paths then some true else rest

  pub should_follow : Ingress → Option Bool
  should_follow ingress = follows_rules ingress.meta.namespace ingress.spec.rules

  -- addFinalizer
  unfoldable pub hold_ingress : Ingress → Ingress
  hold_ingress ingress = record ingress {
    meta = record ingress.meta {
      finalizers = ingress.meta.finalizers ++ (base.target.finalizer ∷ []);
      labels = insert label_key_has_finalizer "true" ingress.meta.labels;
      annotations = insert annotation_key_global "true" ingress.meta.annotations;
    };
  }

  pub hold_if_needed : Ingress → Option ℕ → Exec (Call Ingress) Ingress
  unfolding hold_ingress
  hold_if_needed ingress none =
      request base.server (update_local ingress.meta.namespace (hold_ingress ingress))
  hold_if_needed ingress (some j) = return ingress

  make_remote_ingress : Ingress → Ingress
  make_remote_ingress ingress =
      let bare = Follow.bare_meta ingresses base ingress in
      let marked : Meta = record bare {
        annotations =
            insert annotation_key_global "true"
              (insert annotation_key_is_delegate "" bare.annotations);
      } in
      record {
        meta = add_remote_controller_reference marked ingress.meta base.cluster_name;
        spec = ingress.spec;
      }

  abbrev pub linked : Ingress → Bool
  linked remote = get label_key_parent_cluster_name remote.meta.labels == base.cluster_name

  -- The assignments that panic are those to the copy's annotations and to its labels.
  abbrev assigns_to_nil : Ingress → Ingress → Bool
  assigns_to_nil remote ingress =
      let own = ingress.meta.annotations in
      not (is_empty (annotation_diff remote.meta.annotations own own))
        && is_nil remote.meta.annotations
      || not (linked remote) && is_nil remote.meta.labels

  -- The copy that is returned, and whether it is to be sent.
  pub updated : Ingress → Ingress → Ingress × Bool
  unfolding annotation_diff
  updated remote ingress =
      let own = ingress.meta.annotations in
      let diff = annotation_diff remote.meta.annotations own own in
      let same = r.same_spec remote.spec ingress.spec in
      let linked_labels =
        insert label_key_parent_cluster_name base.cluster_name remote.meta.labels in
      (
        record {
          meta = record remote.meta {
            annotations = copy_into remote.meta.annotations diff;
            labels = if linked remote then remote.meta.labels else linked_labels;
          };
          spec = if same then remote.spec else ingress.spec;
        },
        not same || (not (is_empty diff) || not (linked remote)),
      )

  pub should_update : Ingress → Ingress → Result (Ingress × Bool)
  unfolding updated annotation_diff
  should_update remote ingress =
      if assigns_to_nil remote ingress then err nil_map else ok (updated remote ingress)

  abbrev if_needed : Result (Ingress × Bool) → Result (Option Ingress)
  if_needed (err e) = err e
  if_needed (ok (copy, needed)) = ok (if needed then some copy else none)

  -- What is to be sent for the copy that there is.
  pub update_copy : Ingress → Option Ingress → Result (Option Ingress)
  unfolding should_update
  update_copy ingress none = ok none
  update_copy ingress (some remote) = if_needed (should_update remote ingress)

  pub bring : String → Ingress → Option Ingress → Exec (Call Ingress) (Option ℕ)
  unfolding make_remote_ingress update_copy
  bring namespace ingress remote = lift (update_copy ingress remote) >>= λ copy.
      Follow.bring ingresses base (make_remote_ingress ingress) (λ _. copy) namespace remote

  pub advance : String → Ingress → Option Ingress → Exec (Call Ingress) (Option ℕ)
  unfolding hold_if_needed bring
  advance namespace ingress remote =
      hold_if_needed ingress (has_finalizer ingress.meta.finalizers base.target.finalizer)
      >>= λ held. bring namespace held remote

  abbrev pub plan_for : String → Ingress → Option Bool → Plan Ingress
  plan_for namespace ingress none = err nil_pointer
  plan_for namespace ingress (some true) = ok (some (advance namespace ingress))
  plan_for namespace ingress (some false) = ok none

  pub plan : String → String → Ingress → Plan Ingress
  unfolding should_follow
  plan namespace name ingress = plan_for namespace ingress (should_follow ingress)

  pub handle : String → Exec (Call Ingress) (Option ℕ)
  unfolding plan
  handle =
      Follow.handle ingresses base "cannot delete orphaned ingress: "
        (λ ingress. has_key annotation_key_is_delegate ingress.meta.annotations) plan
