-- ===== src/Ingress/Ownership.antt =====
-- What the controller does to ingresses that are not its own, and when a finalizer comes off.
use admiralty.Base.{
  String, ◌≡◌, refl, true, false, Bool, ℕ, get, lookup, insert, Option, none, some, ok, All, Exec,
  Makes, Makes-bind, Makes-lift, Makes-send, Makes-return, calls, inl, subst, ok_inj,
}
use admiralty.Common.{annotation_key_global}
use admiralty.Follow.{Call, is_foreign, pursue, found_remote}
use admiralty.Follow.Ownership
use admiralty.Follow.Ownership.{IsOwned, Stays, IsOurs, Holds, calls-IsOurs}
use admiralty.Ingress.{
  Ingress, ingresses, Reconciler, hold_ingress, hold_if_needed, bring, advance, plan_for, plan,
  handle,
}

module _ (r : Reconciler) (ingress : Ingress) where
  -- The target's finalizer stands behind those that are there, and the ingress is global.
  abbrev HoldsGlobal : Ingress → Type 0
  HoldsGlobal p =
      Holds ingresses r.base ingress p × (get annotation_key_global p.meta.annotations ≡ "true")

  abbrev pub Ours : Option Ingress → Call Ingress → Type 0
  Ours remote = IsOurs ingresses ingress remote HoldsGlobal

  hold_ingress-HoldsGlobal : HoldsGlobal (hold_ingress r ingress)
  unfolding hold_ingress lookup insert
  hold_ingress-HoldsGlobal = (refl, refl)

  hold_if_needed-Makes :
      (remote : Option Ingress) (j : Option ℕ)
      → Stays ingresses ingress remote
      → Makes (Ours remote) (hold_if_needed r ingress j)
  unfolding hold_if_needed
  hold_if_needed-Makes remote none stays = Makes-send _ _ (inl (hold_ingress-HoldsGlobal, stays))
  hold_if_needed-Makes remote (some j) stays = Makes-return ingress

  bring-Makes :
      (namespace : String) (held : Ingress) (remote : Option Ingress)
      → is_foreign ingresses r.base ingress remote ≡ false
      → Stays ingresses ingress remote
      → Makes (Ours remote) (bring r namespace held remote)
  unfolding bring
  bring-Makes namespace held remote owned stays = Makes-bind _ _ (Makes-lift _) (λ copy.
      Ownership.bring-Makes ingresses r.base ingress HoldsGlobal _ _ namespace remote owned stays)

  advance-Makes :
      (namespace : String) (remote : Option Ingress)
      → is_foreign ingresses r.base ingress remote ≡ false
      → Stays ingresses ingress remote
      → Makes (Ours remote) (advance r namespace ingress remote)
  unfolding advance
  advance-Makes namespace remote owned stays =
      Makes-bind _ _ (hold_if_needed-Makes remote _ stays)
        (λ held. bring-Makes namespace held remote owned stays)

  plan_for-Makes :
      (namespace : String) (remote : Option Ingress) (follows : Option Bool)
      (p : Option (Option Ingress → Exec (Call Ingress) (Option ℕ)))
      → plan_for r namespace ingress follows ≡ ok p
      → Makes (Ours remote) (advance r namespace ingress remote)
      → Makes (Ours remote) (pursue ingresses r.base p remote)
  plan_for-Makes namespace remote none p e made = cc
  plan_for-Makes namespace remote (some true) p e made =
      subst (λ p. Makes (Ours remote) (pursue ingresses r.base p remote)) (ok_inj e) made
  plan_for-Makes namespace remote (some false) p e made =
      subst (λ p. Makes (Ours remote) (pursue ingresses r.base p remote)) (ok_inj e)
        (Makes-return none)

-- Where the listers answer, with an ingress of the source and perhaps one of its name in the target:
-- the target's is deleted or updated only if it is the ingress's copy, deleted only if the ingress is
-- going away and updated only if it is not; one is created only if there is none and the ingress
-- stays; and an update of the ingress itself puts the target's finalizer behind the others and marks
-- it global, where it stays, or is made for one that goes away and has no copy left.
handle_ingress-IsOurs :
    (r : Reconciler) (key : String) (ingress : Ingress) (remote : Option Ingress)
    → found_remote ingresses r.base
        (r.base.remote_lister (r.base.split_key key).0 (r.base.split_key key).1)
      ≡ ok remote
    → r.base.lister (r.base.split_key key).0 (r.base.split_key key).1 ≡ ok ingress
    → All (Ours r ingress remote) (calls (handle r key))
unfolding handle plan
handle_ingress-IsOurs r key ingress remote found listed =
    calls-IsOurs ingresses r.base ingress (HoldsGlobal r ingress) _ _ _ key remote found listed
      (λ p planned owned stays.
        plan_for-Makes r ingress _ remote _ p planned
          (advance-Makes r ingress _ remote owned stays))
