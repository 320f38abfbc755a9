-- ===== src/Secret/Departure.antt =====
-- The two passes for a secret that goes away.
use admiralty.Base.{
  ℕ, String, ◌≡◌, refl, ap, ◌∙◌, Bool, true, false, Option, none, some, [], ok, Exec, calls,
  if◌then◌else◌,
}
use admiralty.Controller.{has_finalizer}
use admiralty.Follow.{Call, delete_remote, update_local}
use admiralty.Follow.Keys.{is_used}
use admiralty.Follow.World.{stored, world_after}
use admiralty.Follow.Departure.{released, SeesLeaving, handle-deletes, handle-releases}
use admiralty.Secret.{Secret, secrets, Reconciler, plan, handle, advance}

plan_total :
    (r : Reconciler) (namespace name : String) (secret : Secret)
    → (go : Option (Option Secret → Exec (Call Secret) (Option ℕ))) × (plan r namespace name secret
        ≡ ok go)
unfolding plan
plan_total r namespace name secret = decided (is_used r.base.target _)
  where
    decided :
        (used : Bool)
        → (go : Option (Option Secret → Exec (Call Secret) (Option ℕ))) × ((if used
              then ok (some (advance r namespace secret))
              else ok none)
            ≡ ok go)
    decided true = (some (advance r namespace secret), refl)
    decided false = (none, refl)

-- A secret with a deletion timestamp and with the target's finalizer, and its copy in the target, are
-- both done with after two passes, each of which sees what is there and has its call answered with no
-- error: the copy is gone, and the secret has lost the finalizer at the index that `HasFinalizer` finds,
-- and is gone too if it has no other.
pub handle-departs :
    (r r' : Reconciler) (key key' : String) (secret copy answer : Secret) (j : ℕ)
    → SeesLeaving secrets r.base key secret (some copy)
    → r.base.server [] (delete_remote (r.base.split_key key).0 (r.base.split_key key).1) ≡ ok tt
    → SeesLeaving secrets r'.base key' secret none
    → has_finalizer secret.meta.finalizers r'.base.target.finalizer ≡ some j
    → r'.base.server [] (update_local secret.meta.namespace (released secrets secret j)) ≡ ok answer
    → world_after secrets r'.base
        (world_after secrets r.base
          (record { source = some secret; copy = some copy })
          (calls (handle r key)))
        (calls (handle r' key'))
      ≡ record { source = stored secrets (released secrets secret j); copy = none }
unfolding handle
handle-departs r r' key key' secret copy answer j leaves deleted leaves' held updated =
    let (go, planned) = plan_total r (r.base.split_key key).0 (r.base.split_key key).1 secret in
    let (go', planned') =
      plan_total r' (r'.base.split_key key').0 (r'.base.split_key key').1 secret in
    ap (λ w. world_after secrets r'.base w (calls (handle r' key')))
      (handle-deletes secrets r.base _ (plan r) _ key secret copy go leaves planned deleted)
    ∙ handle-releases secrets r'.base _ (plan r') _ key' secret answer j go' leaves' planned' held
        updated
