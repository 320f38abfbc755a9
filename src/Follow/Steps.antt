-- ===== src/Follow/Steps.antt =====
-- The steps of the two clusters: a pass of the controller, and what users and other programs do to the
-- object of the source. None of those takes the target's finalizer off.
use admiralty.Base.{
  some_inj, subst, String, ◌≡◌, refl, sym, ap, ◌∙◌, Bool, true, false, Option, none, some, List, [],
  ◌∷◌, is_some, ◌&&◌, arith,
}
use admiralty.Controller.{has_finalizer}
use admiralty.Follow.{Kind}
use admiralty.Follow.World.{World, is_empty, stored, IsHeld, IsGuarded}

module _ {O : Type 0} (kind : Kind O) (finalizer : String) (Pass : World O → World O → Type 0) where
  -- A deletion marks the object, which goes away at once if it has no finalizer.
  abbrev pub marked : O → String → O
  marked o now = kind.with_meta (record (kind.meta o) { deletion_timestamp = some now }) o

  pub data Step (w w' : World O) : Type 0 where
    passes : Pass w w' → Step w w'
    creates : (o : O) → w.source ≡ none → w' ≡ record w { source = some o } → Step w w'
    edits :
        (o p : O)
        → w.source ≡ some o
        → (kind.meta p).uid ≡ (kind.meta o).uid
        → (IsHeld kind finalizer o → IsHeld kind finalizer p)
        → w' ≡ record w { source = some p }
        → Step w w'
    deletes :
        (o : O) (now : String)
        → w.source ≡ some o
        → w' ≡ record w { source = stored kind (marked o now) }
        → Step w w'

  -- Any number of steps.
  pub data Reaches (w : World O) : World O → Type 0 where
    here : Reaches w w
    further : (v w' : World O) → Reaches w v → Step v w' → Reaches w w'

  held-is_empty :
      (b : Bool) (fs : List String)
      → is_some (has_finalizer fs finalizer) ≡ true
      → (b && is_empty fs) ≡ false
  unfolding has_finalizer
  held-is_empty b [] held = ground arith
  held-is_empty true (f ∷ fs) held = refl
  held-is_empty false (f ∷ fs) held = refl

  stored-held : (o : O) → IsHeld kind finalizer o → stored kind o ≡ some o
  unfolding stored
  stored-held o held = rw (held-is_empty _ (kind.meta o).finalizers held) refl

  source-IsGuarded :
      (w w' : World O) (s : Option O)
      → w' ≡ record w { source = s }
      → IsGuarded kind finalizer w
      → ((o : O)
          → w.source ≡ some o
          → IsHeld kind finalizer o
          → (p : O) × (s ≡ some p)
            × ((kind.meta p).uid ≡ (kind.meta o).uid)
            × IsHeld kind finalizer p)
      → IsGuarded kind finalizer w'
  source-IsGuarded w w' s e guarded next = record {
    holder = λ copy u there claimed.
        let (o, found, uid, held) =
          guarded.holder copy u (sym (ap (λ v. v.copy) e) ∙ there) claimed in
        let (p, found', uid', held') = next o found held in
        (p, ap (λ v. v.source) e ∙ found', uid' ∙ uid, held');
  }

  marked-same :
      (o : O) (now : String)
      → ((kind.meta (marked o now)).uid ≡ (kind.meta o).uid)
        × ((kind.meta (marked o now)).finalizers ≡ (kind.meta o).finalizers)
  marked-same o now = rw (kind.meta-with_meta) (refl, refl)

  IsHeld-marked :
      (o : O) (now : String) → IsHeld kind finalizer o → IsHeld kind finalizer (marked o now)
  IsHeld-marked o now held =
      ap (λ fs. is_some (has_finalizer fs finalizer)) (marked-same o now).1 ∙ held

  module _
      (pass-IsGuarded : (w w' : World O)
        → Pass w w'
        → IsGuarded kind finalizer w
        → IsGuarded kind finalizer w') where
    step-IsGuarded :
        (w w' : World O) → Step w w' → IsGuarded kind finalizer w → IsGuarded kind finalizer w'
    step-IsGuarded w w' (passes p) guarded = pass-IsGuarded w w' p guarded
    step-IsGuarded w w' (creates o missing e) guarded =
        source-IsGuarded w w' (some o) e guarded (λ q found held. cc)
    step-IsGuarded w w' (edits o p there uid keeps e) guarded =
        source-IsGuarded w w' (some p) e guarded (λ q found held.
          let same : o ≡ q = some_inj (sym there ∙ found) in
          (
            p,
            refl,
            uid ∙ ap (λ x. (kind.meta x).uid) same,
            keeps (subst (IsHeld kind finalizer) (sym same) held),
          ))
    step-IsGuarded w w' (deletes o now there e) guarded =
        source-IsGuarded w w' (stored kind (marked o now)) e guarded (λ q found held.
          let same : o ≡ q = some_inj (sym there ∙ found) in
          let held' = IsHeld-marked o now (subst (IsHeld kind finalizer) (sym same) held) in
          (
            marked o now,
            stored-held (marked o now) held',
            (marked-same o now).0 ∙ ap (λ x. (kind.meta x).uid) same,
            held',
          ))

    pub Reaches-IsGuarded :
        (w w' : World O) → Reaches w w' → IsGuarded kind finalizer w → IsGuarded kind finalizer w'
    Reaches-IsGuarded w _ here guarded = guarded
    Reaches-IsGuarded w _ (further v w' before step) guarded =
        step-IsGuarded v w' step (Reaches-IsGuarded w v before guarded)
