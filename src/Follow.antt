-- ===== src/Follow.antt =====
-- pkg/controllers/follow: what the controllers of config maps, secrets, services and ingresses have in
-- common. Each runs in the source cluster, once for each target: an object that follows is copied to
-- the target, and a finalizer keeps the original until the copy is gone. The kind of object is a
-- parameter with its laws, the record `Kind`; the listers and the API servers are fields of
-- `Reconciler`; what an object needs while it follows is the argument `plan` of `handle`.
pub mod Keys
pub mod Ownership
pub mod World
pub mod Guards
pub mod Ready
pub mod Steps
pub mod Departure
pub mod Events
use admiralty.Base.{
  ℕ, String, ◌≡◌, Bool, true, false, not, Option, none, some, List, [], ◌∷◌, ◌++◌, remove_at,
  is_some, is_nil, nil_map, ◌&&◌, insert, copy_into, if◌then◌else◌, Result, ok, err, Error,
  is_not_found, is_already_exists, wrap, Exec, return, fail, lift, try, request, ◌>>=◌,
}
use admiralty.Common.{label_key_has_finalizer}
use admiralty.Kube.{Meta}
use admiralty.Agent.{Target}
use admiralty.Controller.{
  is_remote_controlled, add_remote_controller_reference, parent_controls_child, has_finalizer,
}

-- An object with its metadata, which can be put in its place.
pub record Kind (O : Type 0) : Type 0 where
  pub meta : O → Meta
  pub with_meta : Meta → O → O
  pub meta-with_meta : (m : Meta) (o : O) → meta (with_meta m o) ≡ m

-- The calls of the source's clientset (`update_local`) and of the target's, with their namespace.
pub data Call (O : Type 0) : Type 0 where
  delete_remote : String → String → Call O
  create_remote : String → O → Call O
  update_remote : String → O → Call O
  update_local : String → O → Call O

abbrev pub Answer : {O : Type 0} → Call O → Type 0
Answer (delete_remote namespace name) = Unit {0}
Answer {O} (create_remote namespace o) = O
Answer {O} (update_remote namespace o) = O
Answer {O} (update_local namespace o) = O

pub record Reconciler (O : Type 0) : Type 0 where
  pub cluster_name : String
  pub target : Target
  pub server : (log : List (Call O)) (c : Call O) → Result (Answer c)
  pub lister : String → String → Result O
  pub remote_lister : String → String → Result O
  pub split_key : String → String × String

-- What an object needs that follows, given its copy; or nothing, if it does not follow.
abbrev pub Plan : Type 0 → Type 0
Plan O = Result (Option (Option O → Exec (Call O) (Option ℕ)))

module _ {O : Type 0} (kind : Kind O) (r : Reconciler O) where
  open r use {server, target, cluster_name}
  open kind use {meta, with_meta}

  -- addFinalizer, on the copy in memory
  unfoldable pub hold : O → O
  hold o =
      with_meta
        (record (meta o) {
          finalizers = (meta o).finalizers ++ (target.finalizer ∷ []);
          labels = insert label_key_has_finalizer "true" (meta o).labels;
        })
        o

  pub add_finalizer : O → Exec (Call O) O
  unfolding hold
  add_finalizer o = request server (update_local (meta o).namespace (hold o))

  pub remove_finalizer : O → ℕ → Exec (Call O) O
  remove_finalizer o j = request server (
      update_local (meta o).namespace
        (with_meta (record (meta o) { finalizers = remove_at j (meta o).finalizers }) o))

  -- The metadata of a new copy, which has no namespace of its own: the call has one.
  pub bare_meta : O → Meta
  bare_meta o = record {
    name = (meta o).name;
    generate_name = "";
    namespace = "";
    uid = "";
    labels = copy_into [] (meta o).labels;
    annotations = copy_into [] (meta o).annotations;
    finalizers = [];
    owner_references = [];
    deletion_timestamp = none;
  }

  pub copy_meta : O → Meta
  unfolding bare_meta
  copy_meta o = add_remote_controller_reference (bare_meta o) (meta o) cluster_name

  pub delete_copy : (Error → Error) → String → String → Exec (Call O) (Option ℕ)
  delete_copy on_error namespace name =
      try (request server (delete_remote namespace name))
        (λ e. if is_not_found e then return none else fail (on_error e)) (λ _. return none)

  -- The original is gone.
  pub delete_orphan : String → String → String → Option O → Exec (Call O) (Option ℕ)
  delete_orphan noun namespace name none = return none
  delete_orphan noun namespace name (some remote) =
      if is_remote_controlled (meta remote) cluster_name
      then delete_copy (wrap noun) namespace name
      else return none

  pub drop_finalizer : O → Option ℕ → Exec (Call O) (Option ℕ)
  drop_finalizer o none = return none
  drop_finalizer o (some j) = remove_finalizer o j >>= λ _. return none

  pub terminate : String → String → O → Option O → Exec (Call O) (Option ℕ)
  terminate namespace name o (some remote) = delete_copy (λ e. e) namespace name
  terminate namespace name o none =
      drop_finalizer o (has_finalizer (meta o).finalizers target.finalizer)

  pub ensure_finalizer : O → Option ℕ → Exec (Call O) O
  ensure_finalizer o none = add_finalizer o
  ensure_finalizer o (some j) = return o

  abbrev pub send_update : String → Option O → Exec (Call O) (Option ℕ)
  send_update namespace none = return none
  send_update namespace (some copy) =
      request server (update_remote namespace copy) >>= λ _. return none

  -- A copy that is not there is created, and one that is there becomes what `update` makes of it, if it
  -- makes anything.
  pub bring : O → (O → Option O) → String → Option O → Exec (Call O) (Option ℕ)
  bring gold update namespace none =
      try (request server (create_remote namespace gold))
        (λ e. if is_already_exists e then return none else fail e) (λ _. return none)
  bring gold update namespace (some remote) = send_update namespace (update remote)

  -- Where an update of the copy writes a label always, it panics if the copy has none.
  abbrev pub assigns_to_nil : (O → Option O) → Option O → Bool
  assigns_to_nil update none = false
  assigns_to_nil update (some remote) = is_some (update remote) && is_nil (meta remote).labels

  pub bring_labelled : O → (O → Option O) → String → Option O → Exec (Call O) (Option ℕ)
  unfolding bring
  bring_labelled gold update namespace remote =
      if assigns_to_nil update remote then fail nil_map else bring gold update namespace remote

  -- An eponymous object that is not the object's copy.
  abbrev pub is_foreign : O → Option O → Bool
  is_foreign o none = false
  is_foreign o (some remote) = not (parent_controls_child (meta remote) (meta o))

  abbrev pub pursue :
      Option (Option O → Exec (Call O) (Option ℕ)) → Option O → Exec (Call O) (Option ℕ)
  pursue none remote = return none
  pursue (some go) remote = go remote

  pub settle :
      String
      → String
      → O
      → Option O
      → Option (Option O → Exec (Call O) (Option ℕ))
      → Exec (Call O) (Option ℕ)
  settle namespace name o remote go =
      if is_foreign o remote
      then return none
      else if is_some (meta o).deletion_timestamp
      then terminate namespace name o remote
      else pursue go remote

  -- A copy that is missing is no error.
  unfoldable pub found_remote : Result O → Result (Option O)
  found_remote (ok remote) = ok (some remote)
  found_remote (err e) = if is_not_found e then ok none else err e

  module _ (noun : String) (skips : O → Bool) (plan : String → String → O → Plan O) where
    pub follow : String → String → Option O → Result O → Exec (Call O) (Option ℕ)
    follow namespace name remote (err e) =
        if is_not_found e then delete_orphan noun namespace name remote else fail e
    follow namespace name remote (ok o) =
        if skips o
        then return none
        else (lift (plan namespace name o) >>= settle namespace name o remote)

    pub handle : String → Exec (Call O) (Option ℕ)
    handle key =
        let (namespace, name) = r.split_key key in
        lift (found_remote (r.remote_lister namespace name)) >>= λ remote.
        follow namespace name remote (r.lister namespace name)
