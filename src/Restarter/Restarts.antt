-- ===== src/Restarter/Restarts.antt =====
-- When the restarter restarts the deployments.
use admiralty.Base.{
  ◌⊎◌, send, try, fail, String, ◌≡◌, refl, sym, ap, ◌∙◌, Bool, true, false, not, ◌&&◌, ◌||◌, some,
  List, [], ◌∷◌, ok, Exec, run, calls, return, lift-bind, ◌>>=◌, if◌then◌else◌, arith, Bool-cases,
  inl, inr,
}
use admiralty.Restarter.{
  TargetObject, Call, restart, Specs, Data, Memory, Reconciler, same_specs_as, same_data_as,
  wait_both, restart_all, remember, observed_specs, observed_data, handle,
}

module _ (r : Reconciler) where
  -- The two calls, the last one first.
  abbrev pub restarts : List Call
  restarts =
      if r.manager_first
      then restart r.proxy_scheduler_deployment_name
        ∷ restart r.controller_manager_deployment_name
        ∷ []
      else restart r.controller_manager_deployment_name
        ∷ restart r.proxy_scheduler_deployment_name
        ∷ []

  abbrev pub is_current : Memory → Specs → Data → Bool
  is_current memory specs contents =
      same_specs_as r memory.target_specs specs
      && same_data_as r memory.kubeconfig_secret_data contents

  -- Both patches are sent, whatever the answers.
  wait_both-calls :
      (first second : String) (log : List Call)
      → (wait_both r first second log).1 ≡ restart second ∷ restart first ∷ log
  unfolding send try fail
  wait_both-calls first second log = ground arith

  restart_all-calls : calls (restart_all r) ≡ restarts
  unfolding run restart_all
  restart_all-calls = elim (Bool-cases r.manager_first) [
    | inl e ↦ rw e (wait_both-calls _ _ [])
    | inr e ↦ rw e (wait_both-calls _ _ [])
  ]

  bind_return-calls :
      {A B : Type 0}
      → (m : Exec Call A) (b : B) (log : List Call) → ((m >>= λ _. return b) log).1 ≡ (m log).1
  unfolding ◌>>=◌ return
  bind_return-calls m b log = ground arith

  abbrev renewed : Specs → Data → Memory
  renewed specs contents = record {
    target_specs = some specs;
    kubeconfig_secret_data = some contents;
  }

  -- The test of `Handle`, with the two comparisons made.
  abbrev renew : Bool → Bool → Memory → Memory → Exec Call Memory
  renew specs_same data_same memory new =
      if not specs_same || not data_same then (restart_all r >>= λ _. return new) else return memory

  renew-calls :
      (specs_same data_same : Bool) (memory new : Memory)
      → calls (renew specs_same data_same memory new)
        ≡ (if specs_same && data_same then [] else restarts)
  unfolding run
  renew-calls true true memory new = refl
  renew-calls true false memory new = bind_return-calls (restart_all r) new [] ∙ restart_all-calls
  renew-calls false data_same memory new =
      bind_return-calls (restart_all r) new [] ∙ restart_all-calls

  -- What the memory is after a pass with no error: as it was if that was current, or the new one.
  renew-memory :
      (specs_same data_same : Bool) (memory new memory' : Memory) (log log' : List Call)
      → renew specs_same data_same memory new log ≡ (ok memory', log')
      → ((memory' ≡ memory) × (specs_same ≡ true) × (data_same ≡ true)) ⊎ (memory' ≡ new)
  unfolding ◌>>=◌ return
  renew-memory true true memory new memory' log log' e = inl (ground arith, refl, refl)
  renew-memory true false memory new memory' log log' e = inr (ground arith)
  renew-memory false data_same memory new memory' log log' e = inr (ground arith)

  module _ (cluster_targets targets : List TargetObject) (contents : Data) where
    abbrev pub Sees : Type 0
    Sees =
        (r.cluster_target_lister ≡ ok cluster_targets)
        × (r.target_lister ≡ ok targets)
        × (observed_data r cluster_targets targets ≡ ok contents)

    handle-remember :
        (memory : Memory)
        → Sees
        → handle r memory ≡ remember r memory (observed_specs r cluster_targets targets) contents
    unfolding handle
    handle-remember memory (clusters, others, found) =
        rw (clusters, lift-bind, others, lift-bind, found, lift-bind) refl

    remember-settled :
        (specs : Specs) (memory : Memory) (log : List Call)
        → same_specs_as r memory.target_specs specs ≡ true
        → same_data_as r memory.kubeconfig_secret_data contents ≡ true
        → remember r memory specs contents log ≡ (ok memory, log)
    unfolding return
    remember-settled specs memory log specs_same data_same = rw (specs_same, data_same) refl

    after-current :
        (specs : Specs) (memory memory' : Memory)
        → r.same_specs specs specs ≡ true
        → r.same_data contents contents ≡ true
        → ((memory' ≡ memory)
            × (same_specs_as r memory.target_specs specs ≡ true)
            × (same_data_as r memory.kubeconfig_secret_data contents ≡ true))
          ⊎ (memory' ≡ renewed specs contents)
        → (same_specs_as r memory'.target_specs specs ≡ true)
          × (same_data_as r memory'.kubeconfig_secret_data contents ≡ true)
    unfolding same_specs_as same_data_as
    after-current specs memory memory' specs_same data_same (inl (e, s, d)) = rw e (s, d)
    after-current specs memory memory' specs_same data_same (inr e) = rw e (specs_same, data_same)

-- Where the lists and the secrets can be read: a pass makes no call if the memory agrees with both maps
-- that it builds, and else patches both deployments, whatever the API server answers.
pub handle-restarts :
    (r : Reconciler) (cluster_targets targets : List TargetObject) (contents : Data)
    (memory : Memory)
    → Sees r cluster_targets targets contents
    → calls (handle r memory) ≡ (
        if is_current r memory (observed_specs r cluster_targets targets) contents
        then []
        else restarts r)
handle-restarts r cluster_targets targets contents memory sees =
    ap calls (handle-remember r cluster_targets targets contents memory sees)
    ∙ renew-calls r _ _ memory (renewed r (observed_specs r cluster_targets targets) contents)

-- Where, besides, the comparisons are reflexive on what is seen: after a pass that returns no error,
-- another one that sees the same makes no call and leaves the memory.
handle-settled :
    (r : Reconciler) (cluster_targets targets : List TargetObject) (contents : Data)
    (memory memory' : Memory) (log log' : List Call)
    → Sees r cluster_targets targets contents
    → r.same_specs
        (observed_specs r cluster_targets targets)
        (observed_specs r cluster_targets targets)
      ≡ true
    → r.same_data contents contents ≡ true
    → handle r memory log ≡ (ok memory', log')
    → handle r memory' log' ≡ (ok memory', log')
handle-settled r cluster_targets targets contents memory memory' log log' sees specs_same data_same
      done =
    let specs = observed_specs r cluster_targets targets in
    let first = ap (λ m. m log) (handle-remember r cluster_targets targets contents memory sees) in
    let (s, d) =
      after-current r cluster_targets targets contents specs memory memory' specs_same data_same (
        renew-memory r _ _ memory (renewed r specs contents) memory' log log' (sym first ∙ done)) in
    ap (λ m. m log') (handle-remember r cluster_targets targets contents memory' sees)
    ∙ remember-settled r cluster_targets targets contents specs memory' log' s d
