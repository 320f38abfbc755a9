-- ===== src/Follow/World.antt =====
-- The two clusters that a follow controller acts on: an object of the source, and the one of its name in
-- the target. The calls of a pass change them as the API servers do: a call that is answered with an
-- error changes nothing, and an object that goes away is gone when its last finalizer is.
use admiralty.Base.{
  refl, String, ◌≡◌, Bool, true, false, Option, none, some, List, [], ◌∷◌, Result, ok, err, is_some,
  if◌then◌else◌, lookup, ◌&&◌, Error, is_not_found,
}
use admiralty.Common.{label_key_parent_uid}
use admiralty.Controller.{has_finalizer}
use admiralty.Follow.{
  Kind, Call, delete_remote, create_remote, update_remote, update_local, Reconciler, found_remote,
}

pub record World (O : Type 0) : Type 0 where
  pub source : Option O
  pub copy : Option O

abbrev pub is_empty : List String → Bool
is_empty [] = true
is_empty (f ∷ fs) = false

module _ {O : Type 0} (kind : Kind O) where
  -- What is left of an object.
  unfoldable pub stored : O → Option O
  stored o =
      if is_some (kind.meta o).deletion_timestamp && is_empty (kind.meta o).finalizers
      then none
      else some o

  unfoldable pub apply : Call O → World O → World O
  apply (delete_remote namespace name) w = record w { copy = none }
  apply (create_remote namespace o) w = record w { copy = some o }
  apply (update_remote namespace o) w = record w { copy = some o }
  apply (update_local namespace o) w = record w { source = stored o }

  abbrev pub Claims : O → String → Type 0
  Claims copy uid = lookup label_key_parent_uid (kind.meta copy).labels ≡ some uid

  module _ (finalizer : String) where
    abbrev pub IsHeld : O → Type 0
    IsHeld o = is_some (has_finalizer (kind.meta o).finalizers finalizer) ≡ true

    -- A copy with the label of an object's UID is there only while that object is, with the target's
    -- finalizer.
    pub record IsGuarded (w : World O) : Type 0 where
      pub holder :
          (copy : O) (uid : String)
          → w.copy ≡ some copy
          → Claims copy uid
          → (o : O) × (w.source ≡ some o) × ((kind.meta o).uid ≡ uid) × IsHeld o

  module _ (r : Reconciler O) where
    abbrev pub answered : {A : Type 0} → Result A → Call O → World O → World O
    answered (ok a) c w = apply c w
    answered (err e) c w = w

    -- The world after the calls, the last one first.
    unfoldable pub world_after : World O → List (Call O) → World O
    world_after w [] = w
    world_after w (c ∷ log) = answered (r.server log c) c (world_after w log)

    -- What the listers of a pass answer, where they are up to date.
    abbrev pub Sees : {A : Type 0} → Option A → Result A → Type 0
    Sees none found = (e : Error) × (found ≡ err e) × (is_not_found e ≡ true)
    Sees (some a) found = found ≡ ok a

    -- An update is answered with the object that it updates: it has the same UID.
    abbrev pub KeepsUid : Type 0
    KeepsUid =
        (log : List (Call O)) (namespace : String) (o p : O)
        → r.server log (update_local namespace o) ≡ ok p
        → (kind.meta p).uid ≡ (kind.meta o).uid

    pub found_remote-Sees :
        (copy : Option O) (found : Result O) → Sees copy found → found_remote kind r found ≡ ok copy
    unfolding found_remote
    found_remote-Sees none found (e, failed, missing) = rw (failed, missing) refl
    found_remote-Sees (some copy) found seen = rw seen refl
