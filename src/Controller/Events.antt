-- ===== src/Controller/Events.antt =====
-- What the event handlers that the controllers register have in common: a handler is called with
-- the object of an event, or not at all, and puts keys on its controller's queue.
use admiralty.Base.{
  String, ◌<>◌, ◌≡◌, refl, ◌≢◌, Option, none, some, List, [], ◌∷◌, ◌==◌, eq_iff, eq_refl, arith,
  Result, ok, err, Error, Bool-cases, inl, inr,
}
use admiralty.Kube.{Meta, OwnerReference}
use admiralty.Controller.{
  Event, handle_add_update_with, handle_all_with, enqueue_object, enqueue_controller,
  enqueue_remote_controller, index_by_remote_controller, is_remote_controlled,
}

-- `metav1.GetControllerOf` and `cache.MetaNamespaceKeyFunc`
pub record Keys : Type 0 where
  pub controller_of : Meta → Option OwnerReference
  pub namespace_key : Meta → Result String

-- As documented: the namespace, if any, a slash, and the name.
pub record IsLawful (keys : Keys) : Type 0 where
  pub namespaced :
      (m : Meta) → m.namespace ≢ "" → keys.namespace_key m ≡ ok (m.namespace <> ("/" <> m.name))
  pub unspaced : (m : Meta) → m.namespace ≡ "" → keys.namespace_key m ≡ ok m.name

abbrev pub to_list {ℓ} : {A : Type ℓ} → Option A → List A
to_list none = []
to_list (some a) = a ∷ []

abbrev called_with {ℓ κ} : {A : Type ℓ} {K : Type κ} → (A → List K) → Option A → List K
called_with f none = []
called_with f (some a) = f a

module _ {ℓ κ} {A : Type ℓ} {K : Type κ} (enqueue : A → List K) (event : Event A) where
  abbrev pub on_add_update : List K
  on_add_update = called_with enqueue (handle_add_update_with event)

  abbrev pub on_all : List K
  on_all = called_with enqueue (handle_all_with event)

-- EnqueueObject
abbrev pub enqueue : Keys → Meta → List String
enqueue keys object = to_list (enqueue_object keys.controller_of keys.namespace_key object)

-- An object in a namespace has its namespaced name for its key.
enqueue_lem :
    (keys : Keys) (m : Meta)
    → IsLawful keys
    → m.namespace ≢ ""
    → enqueue keys m ≡ (m.namespace <> ("/" <> m.name)) ∷ []
unfolding enqueue_object
enqueue_lem keys m law spaced = rw (law.namespaced m spaced, enqueue_object) refl

-- Every object has one key.
pub enqueue_total :
    (keys : Keys) (m : Meta) → IsLawful keys → (key : String) × (enqueue keys m ≡ key ∷ [])
unfolding enqueue_object
enqueue_total keys m law = elim (Bool-cases (m.namespace == "")) [
  | inl e ↦
      (m.name, rw (law.unspaced m (ground (arith, eq_iff m.namespace "")), enqueue_object) refl)
  | inr e ↦ (_, enqueue_lem keys m law (λ n. ground (arith, eq_iff m.namespace "")))
]

-- The index and the handler of events have the same keys for an object.
pub index-enqueue :
    (cluster_name : String) (m : Meta)
    → to_list (enqueue_remote_controller cluster_name m) ≡ index_by_remote_controller cluster_name m
unfolding enqueue_remote_controller index_by_remote_controller
index-enqueue cluster_name m = elim (Bool-cases (is_remote_controlled m cluster_name)) [
  | inl e ↦ rw (e, enqueue_remote_controller) refl
  | inr e ↦ rw (e, enqueue_remote_controller) refl
]

-- EnqueueController, of an object whose controller is `ref`.
abbrev pub enqueue_owner : Keys → String → (String → String → Result Meta) → Meta → List String
enqueue_owner keys kind get_owner object =
    to_list (enqueue_controller keys.controller_of keys.namespace_key kind get_owner object)

module _ (keys : Keys) (kind : String) (get_owner : String → String → Result Meta) (object : Meta)
    (ref : OwnerReference) (owned : keys.controller_of object ≡ some ref) where
  pub enqueue_owner_found :
      (owner : Meta)
      → IsLawful keys
      → ref.kind ≡ kind
      → get_owner object.namespace ref.name ≡ ok owner
      → owner.namespace ≢ ""
      → enqueue_owner keys kind get_owner object ≡ (owner.namespace <> ("/" <> owner.name)) ∷ []
  unfolding enqueue_controller
  enqueue_owner_found owner law same found spaced =
      rw (owned, enqueue_controller)
        (rw (same, eq_refl kind)
          (rw (found, enqueue_controller) (enqueue_lem keys owner law spaced)))

  pub enqueue_owner_other : ref.kind ≢ kind → enqueue_owner keys kind get_owner object ≡ []
  unfolding enqueue_controller
  enqueue_owner_other other = ground (arith, owned, eq_iff ref.kind kind)

  pub enqueue_owner_missing :
      (e : Error)
      → get_owner object.namespace ref.name ≡ err e
      → enqueue_owner keys kind get_owner object ≡ []
  unfolding enqueue_controller
  enqueue_owner_missing e missing = ground (arith, owned, missing)
