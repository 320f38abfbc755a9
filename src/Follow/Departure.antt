-- ===== src/Follow/Departure.antt =====
-- The two passes for an object that goes away: its copy is deleted, and then the finalizer comes off.
use admiralty.Base.{
  ℕ, String, ◌≡◌, refl, ap, ◌∙◌, false, Option, none, some, [], ◌∷◌, ok, remove_at, Exec, return,
  send, try, run, calls, ◌>>=◌, lift-bind,
}
use admiralty.Controller.{has_finalizer}
use admiralty.Follow.{
  Kind, Call, delete_remote, update_local, Reconciler, Plan, remove_finalizer, delete_copy,
  drop_finalizer, terminate, is_foreign, settle, follow, handle,
}
use admiralty.Follow.Ownership.{Leaves}
use admiralty.Follow.World.{World, stored, apply, world_after, Sees, found_remote-Sees}

-- The object without the finalizer at an index.
abbrev pub released : {O : Type 0} → Kind O → O → ℕ → O
released kind o j =
    kind.with_meta (record (kind.meta o) { finalizers = remove_at j (kind.meta o).finalizers }) o

module _ {O : Type 0} (kind : Kind O) (r : Reconciler O) where
  -- A pass sees the object, which goes away, and its copy, if there is one.
  abbrev pub SeesLeaving : String → O → Option O → Type 0
  SeesLeaving key o copy =
      Sees kind r copy (r.remote_lister (r.split_key key).0 (r.split_key key).1)
      × (r.lister (r.split_key key).0 (r.split_key key).1 ≡ ok o)
      × (is_foreign kind r o copy ≡ false)
      × Leaves kind o copy

  delete_copy-run :
      (namespace name : String)
      → r.server [] (delete_remote namespace name) ≡ ok tt
      → calls (delete_copy kind r (λ e. e) namespace name) ≡ delete_remote namespace name ∷ []
  unfolding delete_copy run send try return
  delete_copy-run namespace name answered = rw answered refl

  drop_finalizer-run :
      (o p : O) (j : ℕ)
      → r.server [] (update_local (kind.meta o).namespace (released kind o j)) ≡ ok p
      → calls (drop_finalizer kind r o (some j))
        ≡ update_local (kind.meta o).namespace (released kind o j) ∷ []
  unfolding drop_finalizer remove_finalizer run send return ◌>>=◌
  drop_finalizer-run o p j answered = rw answered refl

  module _ (noun : String) (plan : String → String → O → Plan O) where
    -- A pass that sees an object that goes away and is not kept from its copy does what `terminate` does.
    handle-leaving :
        (key : String) (o : O) (copy : Option O) (go : Option (Option O → Exec (Call O) (Option ℕ)))
        → Sees kind r copy (r.remote_lister (r.split_key key).0 (r.split_key key).1)
        → r.lister (r.split_key key).0 (r.split_key key).1 ≡ ok o
        → plan (r.split_key key).0 (r.split_key key).1 o ≡ ok go
        → is_foreign kind r o copy ≡ false
        → Leaves kind o copy
        → handle kind r noun (λ o. false) plan key
          ≡ terminate kind r (r.split_key key).0 (r.split_key key).1 o copy
    unfolding handle follow settle
    handle-leaving key o copy go copy_seen listed planned owned leaves =
        rw
          (
            found_remote-Sees kind r copy _ copy_seen,
            lift-bind,
            listed,
            planned,
            lift-bind,
            owned,
            leaves,
          )
          refl

    module _ (w : World O) (key : String) (o : O) where
      pub handle-deletes :
          (copy : O) (go : Option (Option O → Exec (Call O) (Option ℕ)))
          → SeesLeaving key o (some copy)
          → plan (r.split_key key).0 (r.split_key key).1 o ≡ ok go
          → r.server [] (delete_remote (r.split_key key).0 (r.split_key key).1) ≡ ok tt
          → world_after kind r w (calls (handle kind r noun (λ o. false) plan key))
            ≡ record w { copy = none }
      unfolding world_after apply terminate
      handle-deletes copy go (copy_seen, listed, owned, leaves) planned done =
          let (namespace, name) = r.split_key key in
          ap (λ m. world_after kind r w (calls m))
            (handle-leaving key o (some copy) go copy_seen listed planned owned leaves)
          ∙ ap (world_after kind r w) (delete_copy-run namespace name done)
          ∙ rw done refl

      pub handle-releases :
          (p : O) (j : ℕ) (go : Option (Option O → Exec (Call O) (Option ℕ)))
          → SeesLeaving key o none
          → plan (r.split_key key).0 (r.split_key key).1 o ≡ ok go
          → has_finalizer (kind.meta o).finalizers r.target.finalizer ≡ some j
          → r.server [] (update_local (kind.meta o).namespace (released kind o j)) ≡ ok p
          → world_after kind r w (calls (handle kind r noun (λ o. false) plan key))
            ≡ record w { source = stored kind (released kind o j) }
      unfolding world_after apply terminate
      handle-releases p j go (copy_seen, listed, owned, leaves) planned held done =
          ap (λ m. world_after kind r w (calls m))
            (handle-leaving key o none go copy_seen listed planned owned leaves)
          ∙ ap (λ i. world_after kind r w (calls (drop_finalizer kind r o i))) held
          ∙ ap (world_after kind r w) (drop_finalizer-run o p j done)
          ∙ rw done refl
