-- ===== src/Follow/Guards.antt =====
-- The calls of a pass in the two clusters of World, with listers that are up to date.
use admiralty.Base.{
  wrap, ℕ, String, ◌≡◌, refl, sym, ap, subst, ◌∙◌, Bool, false, Option, none, some, List, [],
  Result, ok, err, Error, Exec, return, fail, lift, request, run, calls, ◌>>=◌, if◌then◌else◌,
  Leads, Leads-return, Leads-fail, Leads-send, Leads-if, Leads-bind, Leads-try, Leads-ends,
  lift-bind,
}
use admiralty.Controller.{is_remote_controlled}
use admiralty.Follow.{
  Kind, Call, delete_remote, update_local, Reconciler, Plan, remove_finalizer, delete_copy,
  delete_orphan, drop_finalizer, terminate, is_foreign, pursue, settle, follow, handle,
}
use admiralty.Follow.Ownership.{Stays}
use admiralty.Follow.World.{found_remote-Sees, World, apply, world_after, answered, IsGuarded, Sees}

module _ {O : Type 0} (kind : Kind O) (r : Reconciler O) (w : World O) where
  abbrev pub world : List (Call O) → World O
  world log = world_after kind r w log

  abbrev pub Before : List (Call O) → Type 0
  Before log = world log ≡ w

  abbrev pub Safe : List (Call O) → Type 0
  Safe log = IsGuarded kind r.target.finalizer (world log)

  no_copy-IsGuarded : (v : World O) → v.copy ≡ none → IsGuarded kind r.target.finalizer v
  no_copy-IsGuarded v gone = record { holder = λ copy uid there claimed. cc }

  -- A call from a world that is known, to one that is guarded.
  pub request-Safe :
      (P : List (Call O) → Type 0) (c : Call O)
      → ((log : List (Call O)) → P log → Safe log)
      → ((log : List (Call O))
          → P log
          → IsGuarded kind r.target.finalizer (apply kind c (world log)))
      → Leads P (request r.server c) (λ _. Safe) Safe
  unfolding world_after
  request-Safe P c before after =
      Leads-send c _
        (λ log a p e.
          subst (λ x. IsGuarded kind r.target.finalizer (answered kind r x c (world log))) (sym e)
            (after log p))
        (λ log x p e.
          subst (λ x. IsGuarded kind r.target.finalizer (answered kind r x c (world log))) (sym e)
            (before log p))

  request-Before :
      (c : Call O)
      → IsGuarded kind r.target.finalizer w
      → IsGuarded kind r.target.finalizer (apply kind c w)
      → Leads Before (request r.server c) (λ _. Safe) Safe
  request-Before c guarded after =
      request-Safe Before c (λ log p. subst (IsGuarded kind r.target.finalizer) (sym p) guarded)
        (λ log p. subst (λ v. IsGuarded kind r.target.finalizer (apply kind c v)) (sym p) after)

  pub return-Before :
      {A : Type 0}
      → (a : A) → IsGuarded kind r.target.finalizer w
      → Leads Before (return a) (λ _. Safe) Safe
  return-Before a guarded =
      Leads-return a (λ log p. subst (IsGuarded kind r.target.finalizer) (sym p) guarded)

  fail-Before :
      (e : Error)
      → IsGuarded kind r.target.finalizer w
      → Leads Before (fail {A = Option ℕ} e) (λ _. Safe) Safe
  fail-Before e guarded =
      Leads-fail e (λ log p. subst (IsGuarded kind r.target.finalizer) (sym p) guarded)

  -- What an action does with an error that it leaves, or passes over.
  pub spared-Safe :
      (e e' : Error) (b : Bool)
      → Leads Safe (if b then return none else fail {A = Option ℕ} e') (λ _. Safe) Safe
  spared-Safe e e' b =
      Leads-if b _ _ (λ t. Leads-return none (λ log s. s)) (λ f. Leads-fail e' (λ log s. s))

  delete_copy-Safe :
      (on_error : Error → Error) (namespace name : String)
      → IsGuarded kind r.target.finalizer w
      → Leads Before (delete_copy kind r on_error namespace name) (λ _. Safe) Safe
  unfolding delete_copy apply
  delete_copy-Safe on_error namespace name guarded =
      Leads-try {F = Safe} _ _ _
        (request-Before (delete_remote namespace name) guarded
          (no_copy-IsGuarded (record w { copy = none }) refl))
        (λ e. spared-Safe e (on_error e) _) (λ a. Leads-return none (λ log s. s))

  delete_orphan-Safe :
      (noun namespace name : String) (remote : Option O)
      → IsGuarded kind r.target.finalizer w
      → Leads Before (delete_orphan kind r noun namespace name remote) (λ _. Safe) Safe
  unfolding delete_orphan
  delete_orphan-Safe noun namespace name none guarded = return-Before none guarded
  delete_orphan-Safe noun namespace name (some remote) guarded =
      Leads-if (is_remote_controlled (kind.meta remote) r.cluster_name) _ _
        (λ t. delete_copy-Safe (wrap noun) namespace name guarded) (λ f. return-Before none guarded)

  drop_finalizer-Safe :
      (o : O) (j : Option ℕ)
      → IsGuarded kind r.target.finalizer w
      → w.copy ≡ none
      → Leads Before (drop_finalizer kind r o j) (λ _. Safe) Safe
  unfolding drop_finalizer remove_finalizer apply
  drop_finalizer-Safe o none guarded gone = return-Before none guarded
  drop_finalizer-Safe o (some j) guarded gone =
      Leads-bind _ _ (request-Before (update_local _ _) guarded (no_copy-IsGuarded _ gone))
        (λ p. Leads-return none (λ log s. s))

  terminate-Safe :
      (namespace name : String) (o : O) (remote : Option O)
      → w.copy ≡ remote
      → IsGuarded kind r.target.finalizer w
      → Leads Before (terminate kind r namespace name o remote) (λ _. Safe) Safe
  unfolding terminate
  terminate-Safe namespace name o none gone guarded = drop_finalizer-Safe o _ guarded gone
  terminate-Safe namespace name o (some copy) there guarded =
      delete_copy-Safe _ namespace name guarded

  settle-Safe :
      (namespace name : String) (o : O) (remote : Option O)
      (go : Option (Option O → Exec (Call O) (Option ℕ)))
      → w.copy ≡ remote
      → IsGuarded kind r.target.finalizer w
      → (is_foreign kind r o remote ≡ false
          → Stays kind o remote
          → Leads Before (pursue kind r go remote) (λ _. Safe) Safe)
      → Leads Before (settle kind r namespace name o remote go) (λ _. Safe) Safe
  unfolding settle
  settle-Safe namespace name o remote go there guarded pursued =
      Leads-if _ _ _ (λ foreign. return-Before none guarded)
        (λ owned.
          Leads-if _ _ _ (λ leaves. terminate-Safe namespace name o remote there guarded)
            (pursued owned))

  module _ (noun : String) (skips : O → Bool) (plan : String → String → O → Plan O) where
    -- What a plan does for an object of the source that stays.
    abbrev PlanIsSafe : String → String → Type 0
    PlanIsSafe namespace name =
        (o : O) (go : Option (Option O → Exec (Call O) (Option ℕ)))
        → w.source ≡ some o
        → plan namespace name o ≡ ok go
        → is_foreign kind r o w.copy ≡ false
        → Stays kind o w.copy
        → Leads Before (pursue kind r go w.copy) (λ _. Safe) Safe

    with_plan-Safe :
        (namespace name : String) (o : O) (p : Plan O)
        → plan namespace name o ≡ p
        → w.source ≡ some o
        → IsGuarded kind r.target.finalizer w
        → PlanIsSafe namespace name
        → Leads Before (lift p >>= settle kind r namespace name o w.copy) (λ _. Safe) Safe
    unfolding lift ◌>>=◌
    with_plan-Safe namespace name o (err e) planned there guarded safe = record {
      at = λ log p. subst (IsGuarded kind r.target.finalizer) (sym p) guarded;
    }
    with_plan-Safe namespace name o (ok go) planned there guarded safe = record {
      at =
          (settle-Safe namespace name o w.copy go refl guarded
            (λ owned stays. safe o go there planned owned stays)).at;
    }

    follow-Safe :
        (namespace name : String) (source : Option O) (found : Result O)
        → w.source ≡ source
        → Sees kind r source found
        → IsGuarded kind r.target.finalizer w
        → PlanIsSafe namespace name
        → Leads Before (follow kind r noun skips plan namespace name w.copy found) (λ _. Safe) Safe
    unfolding follow
    follow-Safe namespace name none found there (e, failed, missing) guarded safe =
        rw (failed, missing) (delete_orphan-Safe noun namespace name w.copy guarded)
    follow-Safe namespace name (some o) found there seen guarded safe = rw seen (
        Leads-if (skips o) _ _ (λ t. return-Before none guarded)
          (λ f. with_plan-Safe namespace name o _ refl there guarded safe))

    -- A whole pass, from its key.
    pub handle-IsGuarded :
        (key : String)
        → Sees kind r w.copy (r.remote_lister (r.split_key key).0 (r.split_key key).1)
        → Sees kind r w.source (r.lister (r.split_key key).0 (r.split_key key).1)
        → IsGuarded kind r.target.finalizer w
        → PlanIsSafe (r.split_key key).0 (r.split_key key).1
        → IsGuarded kind r.target.finalizer (world (calls (handle kind r noun skips plan key)))
    unfolding handle run world_after
    handle-IsGuarded key copy_seen source_seen guarded safe =
        let (namespace, name) = r.split_key key in
        let rest : Option O → Exec (Call O) (Option ℕ) =
          λ remote. follow kind r noun skips plan namespace name remote (r.lister namespace name) in
        subst (λ m. IsGuarded kind r.target.finalizer (world (m []).1))
          (sym (
            ap (λ p. lift p >>= rest) (found_remote-Sees kind r w.copy _ copy_seen)
            ∙ lift-bind w.copy rest))
          (Leads-ends _ [] (follow-Safe _ _ w.source _ refl source_seen guarded safe) refl)
