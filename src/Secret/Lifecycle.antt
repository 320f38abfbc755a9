-- ===== src/Secret/Lifecycle.antt =====
-- Secrets in the two clusters of Follow/World, with the passes of their controller.
use admiralty.Base.{
  some_inj, ap, ℕ, String, ◌≡◌, refl, sym, subst, Bool, true, false, Option, none, some, List, ok,
  Exec, calls, ok_inj, if◌then◌else◌, lookup, insert, Leads,
}
use admiralty.Common.{label_key_parent_uid}
use admiralty.Follow.{Call, pursue}
use admiralty.Follow.Ownership.{Stays}
use admiralty.Follow.World.{World, world_after, IsGuarded, Sees, KeepsUid}
use admiralty.Follow.Guards.{Before, Safe, handle-IsGuarded, return-Before}
use admiralty.Follow.Ready.{Ready, copy_meta-uid, bring_labelled-Ready, ensure_finalizer-Ready}
use admiralty.Follow.Steps.{Reaches, Reaches-IsGuarded}
use admiralty.Secret.{
  Secret, secrets, Reconciler, make_remote_secret, is_stale, refreshed, update_data, bring_data,
  advance, plan, handle,
}

module _ (r : Reconciler) (w : World Secret) (secret : Secret) where
  abbrev Kept : List (Call Secret) → Type 0
  Kept = Safe secrets r.base w

  module _ (there : w.source ≡ some secret)
      (guarded : IsGuarded secrets r.base.target.finalizer w) where
    make_remote_secret-uid :
        (a : Secret)
        → lookup label_key_parent_uid (make_remote_secret r a).meta.labels ≡ some a.meta.uid
    unfolding make_remote_secret
    make_remote_secret-uid a = copy_meta-uid secrets r.base a

    update_data-uid :
        (a remote p : Secret)
        → update_data r a remote ≡ some p
        → lookup label_key_parent_uid p.meta.labels ≡ lookup label_key_parent_uid remote.meta.labels
    unfolding update_data refreshed lookup insert
    update_data-uid a remote p made = by_staleness (is_stale r remote a) made
      where
        by_staleness :
            (stale : Bool)
            → (if stale then some (refreshed r remote a) else none) ≡ some p
            → lookup label_key_parent_uid p.meta.labels
              ≡ lookup label_key_parent_uid remote.meta.labels
        by_staleness true made =
            sym (ap (λ q. lookup label_key_parent_uid q.meta.labels) (some_inj made))
        by_staleness false made = cc

    bring_data-Kept :
        (namespace : String) (a : Secret) (remote : Option Secret)
        → w.copy ≡ remote
        → Leads (Ready secrets r.base w secret a) (bring_data r namespace a remote) (λ _. Kept) Kept
    unfolding bring_data
    bring_data-Kept namespace a remote copied =
        bring_labelled-Ready secrets r.base w secret there guarded a (make_remote_secret r a)
          (update_data r a) namespace remote copied (make_remote_secret-uid a) (update_data-uid a)

    advance-Kept :
        (namespace : String)
        → KeepsUid secrets r.base
        → Stays secrets secret w.copy
        → Leads (Before secrets r.base w) (advance r namespace secret w.copy) (λ _. Kept) Kept
    unfolding advance
    advance-Kept namespace keeps stays =
        ensure_finalizer-Ready secrets r.base w secret there guarded _ keeps stays
          (λ a. bring_data-Kept namespace a w.copy refl)

    planned-Kept :
        (namespace : String) (follows : Bool)
        (go : Option (Option Secret → Exec (Call Secret) (Option ℕ)))
        → (if follows then ok (some (advance r namespace secret)) else ok none) ≡ ok go
        → KeepsUid secrets r.base
        → Stays secrets secret w.copy
        → Leads (Before secrets r.base w) (pursue secrets r.base go w.copy) (λ _. Kept) Kept
    planned-Kept namespace true go planned keeps stays =
        subst
          (λ g. Leads (Before secrets r.base w) (pursue secrets r.base g w.copy) (λ _. Kept) Kept)
          (ok_inj planned) (advance-Kept namespace keeps stays)
    planned-Kept namespace false go planned keeps stays =
        subst
          (λ g. Leads (Before secrets r.base w) (pursue secrets r.base g w.copy) (λ _. Kept) Kept)
          (ok_inj planned) (return-Before secrets r.base w none guarded)

-- A pass of a controller for the target with that finalizer, with listers that are up to date.
pub record IsPass (finalizer : String) (w w' : World Secret) : Type 0 where
  pub r : Reconciler
  pub key : String
  pub same_finalizer : r.base.target.finalizer ≡ finalizer
  pub copy_seen :
      Sees secrets r.base w.copy
        (r.base.remote_lister (r.base.split_key key).0 (r.base.split_key key).1)
  pub source_seen :
      Sees secrets r.base w.source (r.base.lister (r.base.split_key key).0 (r.base.split_key key).1)
  pub keeps_uid : KeepsUid secrets r.base
  pub result : w' ≡ world_after secrets r.base w (calls (handle r key))

pass-IsGuarded :
    (finalizer : String) (w w' : World Secret)
    → IsPass finalizer w w'
    → IsGuarded secrets finalizer w
    → IsGuarded secrets finalizer w'
unfolding handle plan
pass-IsGuarded finalizer w w' pass guarded =
    let r = pass.r in
    let held : IsGuarded secrets r.base.target.finalizer w =
      subst (λ f. IsGuarded secrets f w) (sym pass.same_finalizer) guarded in
    let kept =
      handle-IsGuarded secrets r.base w "cannot delete orphaned secret: " (λ s. false) (plan r)
        pass.key pass.copy_seen pass.source_seen held
        (λ secret go there planned owned stays.
          planned-Kept r w secret there held _ _ go planned pass.keeps_uid stays) in
    subst (IsGuarded secrets finalizer) (sym pass.result) (
      subst (λ f. IsGuarded secrets f (world_after secrets r.base w (calls (handle r pass.key))))
        pass.same_finalizer kept)

-- Starting from a source and a target where a copy with the label of an object's UID is there only
-- while that object is, with the target's finalizer, it stays so: in any order of passes of the
-- controller, each with listers that are up to date and a source that answers an update with an
-- object of the same UID, and of creations, deletions and edits of the original that leave it its UID
-- and the finalizer.
pub Reaches-secret-IsGuarded :
    (finalizer : String) (w w' : World Secret)
    → Reaches secrets finalizer (IsPass finalizer) w w'
    → IsGuarded secrets finalizer w
    → IsGuarded secrets finalizer w'
Reaches-secret-IsGuarded finalizer w w' steps guarded =
    Reaches-IsGuarded secrets finalizer (IsPass finalizer) (pass-IsGuarded finalizer) w w' steps
      guarded
