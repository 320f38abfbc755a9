-- ===== src/Source/Examples.antt =====
-- A cluster source whose service account is to be in the namespace `accounts`.
use admiralty.Base.{
  not_found, arith, ◌≡◌, run, refl, false, [], ◌∷◌, ◌++◌, All, ok, err, calls, Error, ◌<>◌, Option,
  none, some, List, ◌==◌, eq_iff, if◌then◌else◌, lift, return, ◌>>=◌,
}
use admiralty.Name.{codes, from_parts}
use admiralty.Kube.{Meta, OwnerReference}
use admiralty.Controller.{added, deleted, handle_all_with}
use admiralty.Controller.Events.{Keys, IsLawful}
use admiralty.Kube.Samples.{sample_meta}
use admiralty.Source.{
  create_service_account, Reconciler, Identity, cluster_source_binding_name,
  cluster_source_viewer_name, ensure, ensure_service_account, Source, source_identity,
  source_binding_name, source_viewer_name, new_binding,
}
use admiralty.Source.Events.{
  enqueued, of_role_binding, of_cluster_role_binding, Controls, binding-Enqueues,
}
use admiralty.Source.Grants.{Grants, ensure-Grants}
use admiralty.Source.Names.{viewer_suffix, cluster_source_names-collide}

abbrev missing : Error
missing = record { reason = not_found; message = "not found" }

abbrev reconciler : Reconciler
reconciler = record {
  server = λ log c. ok tt;
  source_lister = λ namespace name. err missing;
  cluster_source_lister = λ name. err missing;
  service_account_lister = λ namespace name. err missing;
  role_binding_lister = λ namespace name. err missing;
  cluster_role_binding_lister = λ name. err missing;
  split_key = λ key. ("", key);
  new_controller_ref = λ kind meta. record { kind = kind; name = meta.name; uid = meta.uid };
  digest = λ s. s;
  same_subjects = λ s t. false;
  source_role = "source";
  cluster_summary_viewer_role = "viewer";
}

abbrev who : Identity
who = record {
  user_name = "";
  sa_name = "robot";
  sa_namespace = "accounts";
  owner_ref = reconciler.new_controller_ref "ClusterSource" (sample_meta "u" [] []);
  binding_name = codes "b";
  viewer_name = codes "v";
}

ensure-Grants_example : All (Grants reconciler "" who) (calls (ensure reconciler who ""))
ensure-Grants_example = ensure-Grants reconciler "" who

-- The account is created in the empty namespace, and not in the one that it is looked up in.
account_namespace :
    calls (ensure_service_account reconciler who "")
    ≡ create_service_account "" "robot" (who.owner_ref ∷ []) ∷ []
unfolding ensure_service_account run
account_namespace = refl

cluster_source_names-collide_example :
    cluster_source_binding_name (λ s. s) (codes "x" ++ viewer_suffix)
    ≡ cluster_source_viewer_name (λ s. s) (codes "x")
cluster_source_names-collide_example = cluster_source_names-collide (λ s. s) b'x' [] (ground arith)

abbrev src : Source
src = record { meta = sample_meta "u" [] []; user_name = "spirit"; service_account_name = "" }

abbrev serving : Reconciler
serving = record reconciler {
  source_lister = λ namespace name. if namespace == "" then err missing else ok src;
}

abbrev bound : Identity
bound = record {
  user_name = "spirit";
  sa_name = "";
  sa_namespace = "ns";
  owner_ref = reconciler.new_controller_ref "Source" src.meta;
  binding_name = codes "admiralty-source-p";
  viewer_name = codes "admiralty-source-ns-p-cluster-summary-viewer";
}

abbrev first_owner : List OwnerReference → Option OwnerReference
first_owner [] = none
first_owner (ref ∷ refs) = some ref

-- The laws of the keys are those of a function that joins a namespace and a name.
abbrev keys : Keys
keys = record {
  controller_of = λ m. first_owner m.owner_references;
  namespace_key = λ m. ok (if m.namespace == "" then m.name else m.namespace <> ("/" <> m.name));
}

keys-IsLawful : IsLawful keys
keys-IsLawful = record {
  namespaced = λ m spaced. ground (arith, eq_iff m.namespace "");
  unspaced = λ m unspaced. ground (arith, eq_iff m.namespace "");
}

keys-Controls : (ref : OwnerReference) → Controls keys ref
keys-Controls ref m one = rw one refl

abbrev role_binding : Meta
role_binding = record (sample_meta "r" [] []) { owner_references = bound.owner_ref ∷ [] }

abbrev cluster_role_binding : Meta
cluster_role_binding = record role_binding { namespace = "" }

identified : (source_identity serving src []).0 ≡ ok bound
unfolding source_identity source_binding_name source_viewer_name from_parts lift return ◌>>=◌
identified = refl

binding-Enqueues_example :
    (enqueued keys serving (of_role_binding (added role_binding)) ≡ "ns/p" ∷ [])
    × (enqueued keys serving (of_cluster_role_binding (deleted cluster_role_binding)) ≡ [])
unfolding handle_all_with new_binding
binding-Enqueues_example =
    binding-Enqueues keys serving src bound role_binding cluster_role_binding (added role_binding)
      (deleted cluster_role_binding) missing keys-IsLawful (keys-Controls bound.owner_ref) refl refl
      (λ e. cc) identified refl refl refl refl refl refl refl refl
