-- ===== src/Secret/Events.antt =====
-- The events of the secrets controller, and what they lead to for a copy that is lost.
use admiralty.Base.{
  ℕ, String, ◌<>◌, ◌≡◌, ◌≢◌, refl, ap, ◌∙◌, true, none, some, List, [], ◌∷◌, ok, err, Error,
  is_not_found, calls, return-bind,
}
use admiralty.Kube.{Pod}
use admiralty.Controller.{Event, handle_all_with, has_finalizer}
use admiralty.Controller.Events.{Keys, on_all}
use admiralty.Follow.{create_remote}
use admiralty.Follow.Keys.{is_used}
use admiralty.Follow.Events.{
  Watched, of_copy, enqueued, copy-Enqueues, handle-without_copy, bring_labelled-calls,
  ensure_finalizer-held,
}
use admiralty.Secret.{
  Secret, secrets, Reconciler, index_proxy_pod_by_secrets, make_remote_secret, bring_data, advance,
  plan, handle,
}

-- The handlers that `NewSecretController` registers: every event of a pod puts the keys on the
-- queue that the index has the pod under.
pub enqueued_secrets : Keys → Reconciler → Watched Secret Pod → List String
enqueued_secrets keys r =
    enqueued secrets keys r.base.cluster_name (on_all index_proxy_pod_by_secrets)

module _ (r : Reconciler) (namespace name : String) (secret : Secret) where
  plan_of_used :
      is_used r.base.target (r.pod_index (namespace <> ("/" <> name))) ≡ true
      → plan r namespace name secret ≡ ok (some (advance r namespace secret))
  unfolding plan
  plan_of_used used = rw used refl

  -- The one call for a missing copy of a secret that has the finalizer is to create it, whatever
  -- the answer.
  advance-calls :
      (j : ℕ)
      → has_finalizer secret.meta.finalizers r.base.target.finalizer ≡ some j
      → calls (advance r namespace secret none)
        ≡ create_remote namespace (make_remote_secret r secret) ∷ []
  unfolding advance bring_data
  advance-calls j held =
      rw (held, ensure_finalizer-held secrets r.base secret j, return-bind)
        (bring_labelled-calls secrets r.base _ _ namespace)

-- A copy that is lost comes back. The secret has a name and a namespace, the target's finalizer, and
-- no deletion timestamp, and a pod that refers to it was scheduled to the target; its copy was stored
-- there, and is not found: the deletion of the copy, and every other event of it, puts the secret's
-- key on the queue, and the one call of the pass for that key is to create the copy.
pub handle-Restores :
    (keys : Keys) (r : Reconciler) (secret copy : Secret) (namespace uid : String)
    (event : Event Secret) (e : Error) (j : ℕ)
    → secret.meta.namespace ≢ ""
    → secret.meta.name ≢ ""
    → copy.meta ≡ record (make_remote_secret r secret).meta { namespace = namespace; uid = uid }
    → handle_all_with event ≡ some copy
    → let key = secret.meta.namespace <> ("/" <> secret.meta.name) in
      r.base.split_key key ≡ (secret.meta.namespace, secret.meta.name)
      → r.base.remote_lister secret.meta.namespace secret.meta.name ≡ err e
      → is_not_found e ≡ true
      → r.base.lister secret.meta.namespace secret.meta.name ≡ ok secret
      → secret.meta.deletion_timestamp ≡ none
      → has_finalizer secret.meta.finalizers r.base.target.finalizer ≡ some j
      → is_used r.base.target (r.pod_index key) ≡ true
      → (enqueued_secrets keys r (of_copy event) ≡ key ∷ [])
        × (calls (handle r key)
            ≡ create_remote secret.meta.namespace (make_remote_secret r secret) ∷ [])
unfolding enqueued_secrets handle make_remote_secret
handle-Restores keys r secret copy namespace uid event e j spaced named made handed split missing
      gone listed stays held used =
    let key : String = secret.meta.namespace <> ("/" <> secret.meta.name) in
    (
      copy-Enqueues secrets r.base keys _ secret copy namespace uid event spaced named made handed,
      ap calls (
            handle-without_copy secrets r.base _ (plan r) key secret e
              (advance r secret.meta.namespace secret) (rw split missing) gone (rw split listed)
              stays (rw split (plan_of_used r secret.meta.namespace secret.meta.name secret used)))
          ∙ advance-calls r secret.meta.namespace secret.meta.name secret j held,
    )
