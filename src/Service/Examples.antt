-- ===== src/Service/Examples.antt =====
-- A service that selects a proxy pod, and is rerouted to its delegate.
use admiralty.Base.{
  ◌≡◌, ◌<>◌, Map, insert, lookup, starts_with, refl, true, false, none, List, [], ◌∷◌, Result, ok,
  String,
}
use admiralty.Common.{
  is_ours, label_key_parent_uid, annotation_no_prefix_label_regexp,
  annotation_key_original_selector, annotation_key_global, annotation_key_cilium_global_service,
  key_prefix,
}
use admiralty.Kube.Samples.{sample_meta, sample_pod}
use admiralty.Agent.{Target}
use admiralty.Controller.{has_finalizer}
use admiralty.DelegatePod.{
  is_proxy, change_labels, change_loop, changes_key, split_slash, last_segment,
}
use admiralty.Follow.{Call, Answer, delete_remote, create_remote, update_remote, update_local}
use admiralty.Service.{
  ServiceSpec, Service, Reconciler, user_selector, original_selector, should_follow, prepare, mark,
  annotate, reroute,
}
use admiralty.Service.Reroute.{should_follow-prepare}

abbrev target : Target
target = record {
  name = "t";
  self = false;
  namespace = "";
  excluded_labels_regexp = none;
  virtual_node_name = "admiralty-t";
  finalizer = "multicluster.admiralty.io/t";
}

abbrev spec : Map String → ServiceSpec
spec selector = record {
  kind = "ClusterIP";
  selector = selector;
  cluster_ip = "10.0.0.1";
  cluster_ips = [];
  other = "";
}

abbrev svc : Service
svc = record {
  meta = record (sample_meta "u" [] []) { name = "p" };
  spec = spec (("app", "web") ∷ []);
}

abbrev copy : Service
copy = record { meta = sample_meta "c" ((label_key_parent_uid, "u") ∷ []) []; spec = svc.spec }

abbrev server : (log : List (Call Service)) (c : Call Service) → Result (Answer c)
server log (delete_remote namespace name) = ok tt
server log (create_remote namespace s) = ok s
server log (update_remote namespace s) = ok s
server log (update_local namespace s) = ok s

abbrev print : Map String → String
print [] = ""
print ((k, v) ∷ selector) = k <> ("=" <> (v <> ("," <> print selector)))

abbrev reconciler : Reconciler
reconciler = record {
  base = record {
    cluster_name = "source";
    target = target;
    server = server;
    lister = λ namespace name. ok svc;
    remote_lister = λ namespace name. ok copy;
    split_key = λ key. ("ns", "p");
  };
  pod_lister = λ namespace selector. ok (sample_pod "" ∷ []);
  print = print;
  parse = λ s. ok (("app", "web") ∷ []);
  compile = λ regexp. ok (λ label. starts_with label "tier");
  service_reroute_enabled = true;
  same_spec = λ p q. true;
}

-- What the service is once it is prepared.
abbrev rerouted : Map String → String → Service → Service
rerouted selector original old = record old {
  meta = record old.meta {
    annotations =
        (annotation_key_original_selector, original)
        ∷ (annotation_key_global, "true")
        ∷ (annotation_key_cilium_global_service, "true")
        ∷ old.meta.annotations;
  };
  spec = spec selector;
}

should_follow-prepare_example :
    should_follow reconciler (rerouted ((key_prefix <> "app", "web") ∷ []) "app=web," svc)
    ≡ ok (true, "app=web,")
unfolding should_follow original_selector user_selector is_ours insert is_proxy prepare mark
    annotate reroute change_labels change_loop changes_key split_slash last_segment has_finalizer
    lookup
should_follow-prepare_example =
    should_follow-prepare reconciler svc
      (rerouted ((key_prefix <> "app", "web") ∷ []) "app=web," svc) true (("app", "web") ∷ [])
      "app=web," refl refl refl refl refl refl refl

-- The user's expression keeps the label `tier` as it is.
abbrev tiered : Service
tiered = record {
  meta = record (sample_meta "u" [] []) {
    annotations = (annotation_no_prefix_label_regexp, "^tier") ∷ [];
  };
  spec = spec (("app", "web") ∷ ("tier", "front") ∷ []);
}

tiered_once :
    prepare reconciler tiered "app=web,tier=front,"
    ≡ ok (
      rerouted ((key_prefix <> "app", "web") ∷ ("tier", "front") ∷ []) "app=web,tier=front," tiered,
      true,
    )
unfolding insert prepare mark annotate reroute change_labels change_loop changes_key split_slash
    last_segment has_finalizer lookup
tiered_once = refl

-- The second pass takes the label that was kept for a new selector of the user's.
tiered_twice :
    should_follow reconciler (
      rerouted ((key_prefix <> "app", "web") ∷ ("tier", "front") ∷ []) "app=web,tier=front," tiered)
    ≡ ok (true, "tier=front,")
unfolding should_follow original_selector user_selector is_ours insert is_proxy
tiered_twice = refl
