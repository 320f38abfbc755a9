-- ===== src/Removal/Examples.antt =====
-- A config map with finalizers of others.
use admiralty.Base.{false, has_key, List, [], ◌∷◌, ok, Result, none, keep}
use admiralty.Common.{label_key_has_finalizer}
use admiralty.Kube.Samples.{sample_meta}
use admiralty.Agent.{Target}
use admiralty.Follow
use admiralty.Follow.{Call, Answer, delete_remote, create_remote, update_remote, update_local, hold}
use admiralty.ConfigMap.{ConfigMap, config_maps}
use admiralty.Removal
use admiralty.Kube.{Meta}

abbrev target : Target
target = record {
  name = "t";
  self = false;
  namespace = "";
  excluded_labels_regexp = none;
  virtual_node_name = "admiralty-t";
  finalizer = "multicluster.admiralty.io/t";
}

abbrev config_map : ConfigMap
config_map = record { meta = sample_meta "u" [] []; contents = []; binary = [] }

abbrev answers : (log : List (Call ConfigMap)) (c : Call ConfigMap) → Result (Answer c)
answers log (delete_remote namespace name) = ok tt
answers log (create_remote namespace s) = ok s
answers log (update_remote namespace s) = ok s
answers log (update_local namespace s) = ok s

abbrev reconciler : Follow.Reconciler ConfigMap
reconciler = record {
  cluster_name = "source";
  target = target;
  server = answers;
  lister = λ namespace name. ok config_map;
  remote_lister = λ namespace name. ok config_map;
  split_key = λ key. ("ns", "p");
}

abbrev kind : Removal.Kind
kind = Removal.config_maps

abbrev held : Meta
held = (hold config_maps reconciler config_map).meta

abbrev other : Meta
other = sample_meta "v" [] []

-- Two config maps, of which the first is labelled.
abbrev cluster : Removal.Server
cluster = record {
  list = λ log kind. ok (keep (λ o. has_key label_key_has_finalizer o.labels) (held ∷ other ∷ []));
  patched = λ log c. ok tt;
}
