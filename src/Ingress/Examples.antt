-- ===== src/Ingress/Examples.antt =====
use admiralty.Base.{
  nil_map, Bool, err, insert, ◌≡◌, refl, true, false, none, some, List, [], ◌∷◌, Result, ok, lookup,
  or_else, any, String, ◌↔◌,
}
use admiralty.Common.{label_key_parent_uid, annotation_key_global, is_ours}
use admiralty.Kube.{Meta}
use admiralty.Kube.Samples.{sample_meta}
use admiralty.Agent.{Target}
use admiralty.Follow.{Call, Answer, delete_remote, create_remote, update_remote, update_local}
use admiralty.Ingress.{
  IngressSpec, Ingress, Reconciler, index_ingress_by_service, annotation_diff, brings,
  should_update,
}
use admiralty.Ingress.Update.{should_update-settles}
use admiralty.Ingress.Backends.{lacks_http, index_ingress_by_service-panics}

abbrev target : Target
target = record {
  name = "t";
  self = false;
  namespace = "";
  excluded_labels_regexp = none;
  virtual_node_name = "admiralty-t";
  finalizer = "multicluster.admiralty.io/t";
}

abbrev spec : IngressSpec
spec = record { rules = some (none ∷ some "web" ∷ []) ∷ []; other = "" }

abbrev ingress : Ingress
ingress = record {
  meta = record (sample_meta "u" [] []) { annotations = ("class", "nginx") ∷ [] };
  spec = spec;
}

abbrev copy : Ingress
copy = record { meta = sample_meta "c" ((label_key_parent_uid, "u") ∷ []) []; spec = spec }

abbrev server : (log : List (Call Ingress)) (c : Call Ingress) → Result (Answer c)
server log (delete_remote namespace name) = ok tt
server log (create_remote namespace s) = ok s
server log (update_remote namespace s) = ok s
server log (update_local namespace s) = ok s

abbrev global : Meta
global = record (sample_meta "s" [] []) { annotations = (annotation_key_global, "true") ∷ [] }

abbrev reconciler : Reconciler
reconciler = record {
  base = record {
    cluster_name = "source";
    target = target;
    server = server;
    lister = λ namespace name. ok ingress;
    remote_lister = λ namespace name. ok copy;
    split_key = λ key. ("ns", "p");
  };
  svc_lister = λ namespace name. ok global;
  same_spec = λ p q. true;
}

-- The user's annotation is brought to a copy that has the controller's.
abbrev noted : Ingress
noted = record ingress { meta = record ingress.meta { annotations = ("note", "x") ∷ [] } }

abbrev described : Ingress
described = record copy {
  meta = record copy.meta { annotations = (annotation_key_global, "true") ∷ [] };
}

should_update-settles_example :
    (new : Ingress) × (needed : Bool) × (should_update reconciler described noted
      ≡ ok (new, needed))
    × ((k : String)
        → is_ours k ≡ false
        → lookup k new.meta.annotations
          ≡ or_else (lookup k noted.meta.annotations) (lookup k described.meta.annotations))
    × (reconciler.same_spec new.spec noted.spec ≡ true)
    × (should_update reconciler new noted ≡ ok (new, false))
should_update-settles_example = should_update-settles reconciler described noted refl refl refl

-- A copy with labels and no annotations has a nil map, to which nothing can be brought.
a_nil_map : should_update reconciler copy noted ≡ err nil_map
unfolding should_update annotation_diff brings is_ours lookup insert
a_nil_map = refl

-- A rule that only names its host.
abbrev host_only : Ingress
host_only = record ingress { spec = record { rules = none ∷ []; other = "" } }

index_ingress_by_service-panics_example :
    (index_ingress_by_service host_only ≡ none) ↔ (any lacks_http host_only.spec.rules ≡ true)
index_ingress_by_service-panics_example = index_ingress_by_service-panics host_only
