-- ===== src/Secret/Ownership.antt =====
-- What the controller does to secrets that are not its own, and when a finalizer comes off.
use admiralty.Base.{String, ◌≡◌, false, Option, ok, All, Makes, calls}
use admiralty.Follow.{Call, is_foreign, found_remote}
use admiralty.Follow.Ownership.{
  bring_labelled-Makes, Stays, IsOurs, Holds, advance-Makes, planned-Makes, calls-IsOurs,
}
use admiralty.Secret.{Secret, secrets, Reconciler, bring_data, advance, plan, handle}

module _ (r : Reconciler) (secret : Secret) where
  abbrev pub Ours : Option Secret → Call Secret → Type 0
  Ours remote = IsOurs secrets secret remote (Holds secrets r.base secret)

  bring_data-Makes :
      (namespace : String) (held : Secret) (remote : Option Secret)
      → is_foreign secrets r.base secret remote ≡ false
      → Stays secrets secret remote
      → Makes (Ours remote) (bring_data r namespace held remote)
  unfolding bring_data
  bring_data-Makes namespace held remote owned stays =
      bring_labelled-Makes secrets r.base secret (Holds secrets r.base secret) _ _ namespace remote
        owned stays

  advance_plan-Makes :
      (namespace : String) (remote : Option Secret)
      → is_foreign secrets r.base secret remote ≡ false
      → Stays secrets secret remote
      → Makes (Ours remote) (advance r namespace secret remote)
  unfolding advance
  advance_plan-Makes namespace remote owned stays =
      advance-Makes secrets r.base secret remote _ _ stays
        (λ held. bring_data-Makes namespace held remote owned stays)

-- Where the listers answer, with a secret of the source and perhaps one of its name in the target: the
-- target's is deleted or updated only if it is the secret's copy, deleted only if the secret is going
-- away and updated only if it is not; one is created only if there is none and the secret stays; and
-- an update of the secret itself puts the target's finalizer behind the others of a secret that stays,
-- or is made for a secret that goes away and has no copy left.
pub handle-IsOurs :
    (r : Reconciler) (key : String) (secret : Secret) (remote : Option Secret)
    → found_remote secrets r.base
        (r.base.remote_lister (r.base.split_key key).0 (r.base.split_key key).1)
      ≡ ok remote
    → r.base.lister (r.base.split_key key).0 (r.base.split_key key).1 ≡ ok secret
    → All (Ours r secret remote) (calls (handle r key))
unfolding handle plan
handle-IsOurs r key secret remote found listed =
    calls-IsOurs secrets r.base secret (Holds secrets r.base secret) _ _ _ key remote found listed
      (λ p planned owned stays.
        planned-Makes secrets r.base secret remote _ _ p planned
          (advance_plan-Makes r secret _ remote owned stays))
