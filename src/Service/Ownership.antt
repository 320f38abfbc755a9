-- ===== src/Service/Ownership.antt =====
-- What the controller does to services that are not its own, and when a finalizer comes off.
use admiralty.Base.{
  String, ◌≡◌, refl, true, false, Bool, ℕ, Option, none, Result, ok, err, All, Exec, Makes,
  Makes-bind, Makes-lift, Makes-send, Makes-return, Makes-bind-Yields, Yields-lift, calls, inl,
  subst, ok_inj,
}
use admiralty.Follow.{Call, is_foreign, pursue, found_remote}
use admiralty.Follow.Ownership
use admiralty.Follow.Ownership.{IsOwned, Stays, IsOurs, calls-IsOurs}
use admiralty.Service.{
  Service, services, Reconciler, should_follow, bring, update_if_needed, advance, plan_for, plan,
  handle,
}
use admiralty.Service.Prepare.{IsPrepared, prepare-IsPrepared}

module _ (r : Reconciler) (svc : Service) where
  -- The service as it is prepared to follow, with the selector that it follows with.
  abbrev Follows : Service → Type 0
  Follows p =
      (selector : String) × (should_follow r svc ≡ ok (true, selector))
      × IsPrepared r svc selector p

  abbrev pub Ours : Option Service → Call Service → Type 0
  Ours remote = IsOurs services svc remote Follows

  bring-Makes :
      (namespace : String) (held : Service) (remote : Option Service)
      → is_foreign services r.base svc remote ≡ false
      → Stays services svc remote
      → Makes (Ours remote) (bring r namespace held remote)
  unfolding bring
  bring-Makes namespace held remote owned stays =
      Ownership.bring_labelled-Makes services r.base svc Follows _ _ namespace remote owned stays

  update_if_needed-Makes :
      (remote : Option Service) (copy : Service) (c : Bool)
      → Follows copy
      → Stays services svc remote
      → Makes (Ours remote) (update_if_needed r svc (copy, c))
  unfolding update_if_needed
  update_if_needed-Makes remote copy false prepared stays = Makes-return svc
  update_if_needed-Makes remote copy true prepared stays = Makes-send _ _ (inl (prepared, stays))

  advance-Makes :
      (namespace : String) (remote : Option Service) (selector : String)
      → should_follow r svc ≡ ok (true, selector)
      → is_foreign services r.base svc remote ≡ false
      → Stays services svc remote
      → Makes (Ours remote) (advance r namespace svc selector remote)
  unfolding advance
  advance-Makes namespace remote selector follows owned stays =
      Makes-bind _ _
        (Makes-bind-Yields _ _ (Makes-lift _) (Yields-lift _ (λ q done. done)) (λ (p, c) done.
          update_if_needed-Makes remote p c
            (selector, follows, prepare-IsPrepared r svc p c selector done) stays))
        (λ held. bring-Makes namespace held remote owned stays)

  plan_for-Makes :
      (namespace : String) (remote : Option Service) (follows : Result (Bool × String))
      (p : Option (Option Service → Exec (Call Service) (Option ℕ)))
      → plan_for r namespace svc follows ≡ ok p
      → ((selector : String)
          → follows ≡ ok (true, selector)
          → Makes (Ours remote) (advance r namespace svc selector remote))
      → Makes (Ours remote) (pursue services r.base p remote)
  plan_for-Makes namespace remote (err e) p planned made = cc
  plan_for-Makes namespace remote (ok (true, selector)) p planned made =
      subst (λ p. Makes (Ours remote) (pursue services r.base p remote)) (ok_inj planned)
        (made selector refl)
  plan_for-Makes namespace remote (ok (false, selector)) p planned made =
      subst (λ p. Makes (Ours remote) (pursue services r.base p remote)) (ok_inj planned)
        (Makes-return none)

-- Where the listers answer, with a service of the source and perhaps one of its name in the target:
-- the target's is deleted or updated only if it is the service's copy, deleted only if the service is
-- going away and updated only if it is not; one is created only if there is none and the service
-- stays; and an update of the service itself is made for one that goes away and has no copy left, or
-- for one that stays and follows: it then has the target's finalizer, behind the others if it was not
-- there, both marks of a global service, and the selector that it follows with in its annotation.
handle_service-IsOurs :
    (r : Reconciler) (key : String) (svc : Service) (remote : Option Service)
    → found_remote services r.base
        (r.base.remote_lister (r.base.split_key key).0 (r.base.split_key key).1)
      ≡ ok remote
    → r.base.lister (r.base.split_key key).0 (r.base.split_key key).1 ≡ ok svc
    → All (Ours r svc remote) (calls (handle r key))
unfolding handle plan
handle_service-IsOurs r key svc remote found listed =
    calls-IsOurs services r.base svc (Follows r svc) _ _ _ key remote found listed
      (λ p planned owned stays.
        plan_for-Makes r svc _ remote _ p planned
          (λ selector follows. advance-Makes r svc _ remote selector follows owned stays))
