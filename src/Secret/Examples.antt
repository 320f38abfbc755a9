-- ===== src/Secret/Examples.antt =====
-- A secret that goes away while its copy is still there.
use admiralty.Base.{
  lookup, Error, not_found, err, ◌≡◌, refl, true, false, none, some, List, [], ◌∷◌, All, Result, ok,
  calls,
}
use admiralty.Common.{label_key_parent_uid}
use admiralty.Kube.Samples.{sample_meta, sample_pod}
use admiralty.Agent.{Target}
use admiralty.Controller.Events.{Keys}
use admiralty.Follow.Events.{of_copy}
use admiralty.Secret.Events.{enqueued_secrets, handle-Restores}
use admiralty.Controller.{deleted, handle_all_with, has_finalizer, parent_controls_child}
use admiralty.DelegatePod.{is_proxy, get_scheduled_cluster_name}
use admiralty.Follow.{
  Call, Answer, delete_remote, create_remote, update_remote, update_local, found_remote,
}
use admiralty.Secret.{
  Secret, secrets, Reconciler, index_proxy_pod_by_secrets, make_remote_secret, handle,
}
use admiralty.Follow.World.{stored, World, world_after, IsGuarded, KeepsUid}
use admiralty.Follow.Steps.{here, further, passes}
use admiralty.Follow.Departure.{released}
use admiralty.Secret.Departure.{handle-departs}
use admiralty.Secret.Lifecycle.{Reaches-secret-IsGuarded}
use admiralty.Secret.Ownership.{Ours, handle-IsOurs}

abbrev target : Target
target = record {
  name = "t";
  self = false;
  namespace = "";
  excluded_labels_regexp = none;
  virtual_node_name = "admiralty-t";
  finalizer = "multicluster.admiralty.io/t";
}

abbrev secret : Secret
secret = record {
  meta = record (sample_meta "u" [] []) { deletion_timestamp = some "now" };
  kind = "Opaque";
  contents = ("password", "1234") ∷ [];
}

abbrev copy : Secret
copy = record {
  meta = sample_meta "c" ((label_key_parent_uid, "u") ∷ []) [];
  kind = "Opaque";
  contents = [];
}

abbrev server : (log : List (Call Secret)) (c : Call Secret) → Result (Answer c)
server log (delete_remote namespace name) = ok tt
server log (create_remote namespace s) = ok s
server log (update_remote namespace s) = ok s
server log (update_local namespace s) = ok s

abbrev reconciler : Reconciler
reconciler = record {
  base = record {
    cluster_name = "source";
    target = target;
    server = server;
    lister = λ namespace name. ok secret;
    remote_lister = λ namespace name. ok copy;
    split_key = λ key. ("ns", "p");
  };
  pod_index = λ key. [];
  same_data = λ p q. true;
}

-- A proxy pod that pulls its images with a secret.
pulls :
    index_proxy_pod_by_secrets (record (sample_pod "") {
      spec = record (sample_pod "").spec { image_pull_secrets = "registry" ∷ [] };
    })
    ≡ "ns/registry" ∷ []
unfolding index_proxy_pod_by_secrets is_proxy
pulls = refl

handle-IsOurs_example : All (Ours reconciler secret (some copy)) (calls (handle reconciler "ns/p"))
unfolding found_remote
handle-IsOurs_example = handle-IsOurs reconciler "ns/p" secret (some copy) refl refl

-- A secret that stays, and that a pod of the target's virtual node pulls its images with.
abbrev staying : Secret
staying = record { meta = sample_meta "u" [] []; kind = "Opaque"; contents = [] }

abbrev missing : Error
missing = record { reason = not_found; message = "not found" }

abbrev start : World Secret
start = record { source = some staying; copy = none }

abbrev following : Reconciler
following = record {
  base = record {
    cluster_name = "source";
    target = target;
    server = server;
    lister = λ namespace name. ok staying;
    remote_lister = λ namespace name. err missing;
    split_key = λ key. ("ns", "p");
  };
  pod_index = λ key. sample_pod "admiralty-t" ∷ [];
  same_data = λ p q. true;
}

abbrev first_pass : World Secret
first_pass = world_after secrets following.base start (calls (handle following "ns/p"))

answers_uid : KeepsUid secrets following.base
answers_uid log namespace o p e = cc

Reaches-secret-IsGuarded_example : IsGuarded secrets target.finalizer first_pass
Reaches-secret-IsGuarded_example =
    Reaches-secret-IsGuarded target.finalizer start first_pass
      (further start first_pass here (
        passes (record {
          r = following;
          key = "ns/p";
          same_finalizer = refl;
          copy_seen = (missing, refl, refl);
          source_seen = refl;
          keeps_uid = answers_uid;
          result = refl;
        })))
      (record { holder = λ c uid there claimed. cc })

-- The reconciler of the second pass, when the copy is gone.
abbrev second : Reconciler
second = record reconciler {
  base = record reconciler.base { remote_lister = λ namespace name. err missing };
}

handle-departs_example :
    world_after secrets second.base
      (world_after secrets reconciler.base
        (record { source = some secret; copy = some copy })
        (calls (handle reconciler "ns/p")))
      (calls (handle second "ns/p"))
    ≡ record { source = stored secrets (released secrets secret 1); copy = none }
unfolding parent_controls_child lookup has_finalizer
handle-departs_example =
    handle-departs reconciler second "ns/p" "ns/p" secret copy (released secrets secret 1) 1
      (refl, refl, refl, refl) refl ((missing, refl, refl), refl, refl, refl) refl refl

-- A pod on the target's node refers to the secret that stays, and its copy is lost.
abbrev lost : Reconciler
lost = record reconciler {
  base = record reconciler.base {
    lister = λ namespace name. ok staying;
    remote_lister = λ namespace name. err (record { reason = not_found; message = "not found" });
  };
  pod_index = λ key. sample_pod "admiralty-t" ∷ [];
}

abbrev stored_copy : Secret
stored_copy = record (make_remote_secret lost staying) {
  meta = record (make_remote_secret lost staying).meta { namespace = "ns"; uid = "c" };
}

abbrev keys : Keys
keys = record { controller_of = λ m. none; namespace_key = λ m. ok m.name }

handle-Restores_example :
    (enqueued_secrets keys lost (of_copy (deleted stored_copy)) ≡ "ns/p" ∷ [])
    × (calls (handle lost "ns/p") ≡ create_remote "ns" (make_remote_secret lost staying) ∷ [])
unfolding handle_all_with has_finalizer get_scheduled_cluster_name
handle-Restores_example =
    handle-Restores keys lost staying stored_copy "ns" "c" (deleted stored_copy)
      (record { reason = not_found; message = "not found" }) 1 (λ e. cc) (λ e. cc) refl refl refl
      refl refl refl refl refl refl
