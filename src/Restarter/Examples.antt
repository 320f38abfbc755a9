-- ===== src/Restarter/Examples.antt =====
-- One target, with a kubeconfig secret, seen for the first time and again.
use admiralty.Base.{
  ◌≡◌, refl, insert, true, some, none, [], ◌∷◌, ok, calls, if◌then◌else◌, String, ◌<>◌, ◌&&◌, ◌==◌,
  eq_iff, Bool-cases, inl, inr, keep, Map, Result, arith,
}
use admiralty.Kube.{Meta}
use admiralty.Controller.{updated, deleted, handle_all_with, handle_add_update_with}
use admiralty.Controller.Events.{Keys, IsLawful}
use admiralty.Restarter.Events.{
  Indices, files_under, enqueued, of_target, AgreesElsewhere, observed_data-unless_enqueued,
}
use admiralty.Kube.Samples.{sample_meta}
use admiralty.Restarter.{
  TargetObject, Data, Memory, Reconciler, collect_data, observed_specs, observed_data, handle,
  target_by_kubeconfig_secret,
}
use admiralty.Restarter.Restarts.{restarts, is_current, handle-restarts}

abbrev target : TargetObject
target = record {
  meta = sample_meta "u" [] [];
  kubeconfig_secret = some (record { name = "config"; namespace = "" });
  other = "";
}

abbrev reconciler : Reconciler
reconciler = record {
  server = λ log c. ok tt;
  cluster_target_lister = ok [];
  target_lister = ok (target ∷ []);
  secret_lister = λ namespace name. ok [];
  same_specs = λ s t. true;
  same_data = λ s t. true;
  controller_manager_deployment_name = "manager";
  proxy_scheduler_deployment_name = "scheduler";
  manager_first = true;
}

abbrev contents : Data
contents = ("ns/p", []) ∷ []

abbrev empty : Memory
empty = record { target_specs = none; kubeconfig_secret_data = none }

handle-restarts_example : calls (handle reconciler empty) ≡ (
    if is_current reconciler empty (observed_specs reconciler [] (target ∷ [])) contents
    then []
    else restarts reconciler)
unfolding collect_data observed_data insert
handle-restarts_example =
    handle-restarts reconciler [] (target ∷ []) contents empty (refl, refl, refl)

-- A secret that the target does not refer to, and what the lister has once it has changed.
abbrev unused : Meta
unused = record (sample_meta "s" [] []) { name = "unused" }

abbrev other : String → String → Result (Map String)
other namespace name = if namespace == "ns" && name == "unused" then ok (("a", "b") ∷ []) else ok []

abbrev indices : Indices
indices = record {
  cluster_targets = λ key. [];
  targets = λ key. keep (files_under target_by_kubeconfig_secret key) (target ∷ []);
}

abbrev keys : Keys
keys = record {
  controller_of = λ m. none;
  namespace_key = λ m. ok (if m.namespace == "" then m.name else m.namespace <> ("/" <> m.name));
}

keys-IsLawful : IsLawful keys
keys-IsLawful = record {
  namespaced = λ m spaced. ground (arith, eq_iff m.namespace "");
  unspaced = λ m unspaced. ground (arith, eq_iff m.namespace "");
}

agrees : AgreesElsewhere reconciler other "ns" "unused"
agrees namespace name = elim (Bool-cases (namespace == "ns" && name == "unused")) [
  | inl e ↦ inr (ground (arith, eq_iff namespace "ns"), ground (arith, eq_iff name "unused"))
  | inr e ↦ inl (rw e refl)
]

observed_data-unless_enqueued_example :
    observed_data reconciler [] (target ∷ [])
    ≡ observed_data (record reconciler { secret_lister = other }) [] (target ∷ [])
unfolding enqueued handle_all_with target_by_kubeconfig_secret
observed_data-unless_enqueued_example =
    observed_data-unless_enqueued keys indices reconciler other unused (updated unused unused) []
      (target ∷ []) keys-IsLawful (λ key. (refl, refl)) agrees refl refl

-- The deletion of a target puts no key on the queue.
unseen_deletion : enqueued keys indices (of_target (deleted target)) ≡ []
unfolding enqueued handle_add_update_with
unseen_deletion = refl
