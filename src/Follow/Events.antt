-- ===== src/Follow/Events.antt =====
-- The events that put objects on the queue of a follow controller: those of the objects themselves,
-- those of the copies in the target, and those of what makes the objects follow, which each controller
-- has its own handler for.
use admiralty.Base.{
  ℕ, String, ◌<>◌, ◌≡◌, ◌≢◌, refl, Option, none, some, List, [], ◌∷◌, ok, err, Error, is_not_found,
  true, false, Exec, lift-bind, ◌∙◌, Result, is_already_exists, return, fail, send, try, run, calls,
  Bool-cases, inl, inr, if◌then◌else◌,
}
use admiralty.Controller.{
  Event, handle_all_with, enqueue_remote_controller, add_remote_controller_reference,
}
use admiralty.Controller.Events.{Keys, to_list, on_add_update, on_all, enqueue, index-enqueue}
use admiralty.Controller.Reference.{index-add}
use admiralty.Follow.{
  Kind, Call, create_remote, Reconciler, Plan, bring, bring_labelled, ensure_finalizer, bare_meta,
  copy_meta, found_remote, follow, settle, handle,
}

-- The events of the informers that a constructor registers handlers with; `X` is what makes the
-- objects follow: proxy pods, services or endpoints.
pub data Watched (O X : Type 0) : Type 0 where
  of_original : Event O → Watched O X
  of_copy : Event O → Watched O X
  of_reason : Event X → Watched O X

module _ {O X : Type 0} (kind : Kind O) (keys : Keys) (cluster_name : String) where
  -- `related` gives the keys for an event of what makes objects follow.
  pub enqueued : (Event X → List String) → Watched O X → List String
  enqueued related (of_original event) = on_add_update (λ o. enqueue keys (kind.meta o)) event
  enqueued related (of_copy event) =
      on_all (λ o. to_list (enqueue_remote_controller cluster_name (kind.meta o))) event
  enqueued related (of_reason event) = related event

module _ {O X : Type 0} (kind : Kind O) (r : Reconciler O) (keys : Keys) where
  -- Every event of a copy of an object with a name and a namespace, as the target stores it, puts
  -- the object's key on the queue.
  pub copy-Enqueues :
      (related : Event X → List String) (o copy : O) (namespace uid : String) (event : Event O)
      → (kind.meta o).namespace ≢ ""
      → (kind.meta o).name ≢ ""
      → kind.meta copy ≡ record (copy_meta kind r o) { namespace = namespace; uid = uid }
      → handle_all_with event ≡ some copy
      → enqueued kind keys r.cluster_name related (of_copy event)
        ≡ ((kind.meta o).namespace <> ("/" <> (kind.meta o).name)) ∷ []
  unfolding enqueued copy_meta add_remote_controller_reference
  copy-Enqueues related o copy namespace uid event spaced named made handed =
      rw (handed, made)
        (index-enqueue r.cluster_name _
          ∙ index-add (record (bare_meta kind r o) { namespace = namespace; uid = uid })
              (kind.meta o) r.cluster_name spaced named)

module _ {O : Type 0} (kind : Kind O) (r : Reconciler O) where
  -- A pass over an object that stays and follows, and whose copy is not found, does what its plan
  -- has for a missing copy.
  pub handle-without_copy :
      (noun : String) (plan : String → String → O → Plan O) (key : String) (o : O) (e : Error)
      (go : Option O → Exec (Call O) (Option ℕ))
      → r.remote_lister (r.split_key key).0 (r.split_key key).1 ≡ err e
      → is_not_found e ≡ true
      → r.lister (r.split_key key).0 (r.split_key key).1 ≡ ok o
      → (kind.meta o).deletion_timestamp ≡ none
      → plan (r.split_key key).0 (r.split_key key).1 o ≡ ok (some go)
      → handle kind r noun (λ o. false) plan key ≡ go none
  unfolding handle follow settle found_remote
  handle-without_copy noun plan key o e go missing gone listed stays planned =
      rw (missing, found_remote, gone, lift-bind, listed, planned, lift-bind, stays) refl

  -- A copy that is missing is created: that is the one call, whatever the answer.
  bring-calls :
      (gold : O) (update : O → Option O) (namespace : String)
      → calls (bring kind r gold update namespace none) ≡ create_remote namespace gold ∷ []
  unfolding bring run send try
  bring-calls gold update namespace = answered (r.server [] (create_remote namespace gold))
    where
      answered :
          (a : Result O)
          → (elim a as (λ _. Result (Option ℕ) × List (Call O)) [
            | ok p ↦ return none (create_remote namespace gold ∷ [])
            | err e ↦
                (if is_already_exists e then return none else fail e)
                  (create_remote namespace gold ∷ [])
          ]).1
            ≡ create_remote namespace gold ∷ []
      answered (ok p) = unfold return in refl
      answered (err e) = elim (Bool-cases (is_already_exists e)) [
        | inl same ↦ rw same (unfold return in refl)
        | inr other ↦ rw other (unfold fail in refl)
      ]

  pub ensure_finalizer-held : (o : O) (j : ℕ) → ensure_finalizer kind r o (some j) ≡ return o
  unfolding ensure_finalizer
  ensure_finalizer-held o j = refl

  pub bring_labelled-calls :
      (gold : O) (update : O → Option O) (namespace : String)
      → calls (bring_labelled kind r gold update namespace none) ≡ create_remote namespace gold ∷ []
  unfolding bring_labelled
  bring_labelled-calls gold update namespace = bring-calls gold update namespace
