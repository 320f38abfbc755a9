-- ===== src/Service.antt =====
-- pkg/controllers/follow/service/controller.go: services that select proxy pods follow. While one
-- follows, its selector is turned to the delegate pods, and an annotation keeps the original one. The
-- listers, `labels.Set.String` (`print`), `labels.ConvertSelectorToLabelsMap` (`parse`), regular
-- expressions (`compile`) and `reflect.DeepEqual` are parameters, in the record `Reconciler`.
pub mod Ownership
pub mod Events
pub mod Prepare
pub mod Reroute
mod Examples
use admiralty.Base.{
  ℕ, String, ◌<>◌, Bool, true, false, not, ◌||◌, Option, none, some, List, [], ◌∷◌, Map, get,
  lookup, insert, has_key, is_some, refl, ◌==◌, if◌then◌else◌, any, Result, ok, err, errorf, wrap,
  is_already_exists, Exec, return, fail, lift, try, request, ◌>>=◌,
}
use admiralty.Common.{
  is_ours, label_key_parent_cluster_name, annotation_key_global, annotation_key_is_delegate,
  annotation_key_cilium_global_service, annotation_key_original_selector,
  annotation_no_prefix_label_regexp,
}
use admiralty.Kube.{Meta, Pod}
use admiralty.Controller.{has_finalizer, add_remote_controller_reference}
use admiralty.DelegatePod.{is_proxy, change_labels}
use admiralty.Follow
use admiralty.Follow.{Kind, Call, create_remote, update_remote, update_local, Plan}

pub record ServiceSpec : Type 0 where
  pub kind : String  -- the field `Type`
  pub selector : Map String
  pub cluster_ip : String
  pub cluster_ips : List String
  pub other : String

pub record Service : Type 0 where
  pub meta : Meta
  pub spec : ServiceSpec

abbrev pub services : Kind Service
services = record {
  meta = λ s. s.meta;
  with_meta = λ m s. record s { meta = m };
  meta-with_meta = λ m s. refl;
}

pub record Reconciler : Type 0 where
  pub base : Follow.Reconciler Service
  pub pod_lister : String → Map String → Result (List Pod)
  pub print : Map String → String
  pub parse : String → Result (Map String)
  pub compile : String → Result (String → Bool)
  pub same_spec : ServiceSpec → ServiceSpec → Bool
  pub service_reroute_enabled : Bool

abbrev cluster_ip_none : String
cluster_ip_none = "None"

abbrev service_type_external_name : String
service_type_external_name = "ExternalName"

-- The loop of `shouldFollow` over the selector: the labels that are not under this program's prefix.
pub user_selector : Map String → Map String
user_selector [] = []
user_selector ((k, v) ∷ selector) =
    let rest = user_selector selector in if is_ours k then rest else insert k v rest

-- `svcCopy.Annotations[k] = v` where it is not there, with the note that the copy has changed
pub annotate : String → String → Service × Bool → Service × Bool
annotate k v (svc, changed) = if get k svc.meta.annotations == v then (svc, changed) else (
  record svc { meta = record svc.meta { annotations = insert k v svc.meta.annotations } },
  true,
)

-- The three annotations of a service that follows.
pub mark : String → Service × Bool → Service × Bool
unfolding annotate
mark selector held = annotate annotation_key_original_selector selector (
    annotate annotation_key_global "true"
      (annotate annotation_key_cilium_global_service "true" held))

module _ (r : Reconciler) where
  open r use {base}

  abbrev pub recover : Service → Result (Map String)
  recover svc = elim (lookup annotation_key_original_selector svc.meta.annotations) [
    | none ↦ err (errorf "original selector not found")
    | some s ↦ elim (r.parse s) [
      | err e ↦ err (wrap "original selector is invalid (was tampered with?): " e)
      | ok selector ↦ ok selector
    ]
  ]

  -- The selector of proxy pods: the user's labels, or where there are none, the one that was kept.
  abbrev pub original_or : Service → Map String → Result (Map String)
  original_or svc [] = recover svc
  original_or svc (e ∷ selector) = ok (e ∷ selector)

  pub original_selector : Service → Result (Map String)
  unfolding user_selector
  original_selector svc = original_or svc (user_selector svc.spec.selector)

  abbrev pub selects : Service → Result (Map String) → Result (Bool × String)
  selects svc (err e) = err e
  selects svc (ok selector) = elim (r.pod_lister svc.meta.namespace selector) [
    | err e ↦ err e
    | ok pods ↦ ok (any is_proxy pods, r.print selector)
  ]

  abbrev pub follows_by : Service → Map String → Result (Bool × String)
  follows_by svc [] = ok (false, "")
  follows_by svc (e ∷ selector) = selects svc (original_selector svc)

  pub should_follow : Service → Result (Bool × String)
  unfolding original_selector
  should_follow svc = follows_by svc svc.spec.selector

  -- addFinalizer, if the finalizer is not there
  abbrev pub hold_if_needed : Option ℕ → Service → Service × Bool
  hold_if_needed none svc = (Follow.hold services base svc, true)
  hold_if_needed (some j) svc = (svc, false)

  abbrev pub with_selector : Service × Bool → Result (Map String × Bool) → Result (Service × Bool)
  with_selector (svc, changed) (err e) =
      err (wrap ("failed to change labels for mirrored service " <> (svc.meta.name <> ": ")) e)
  with_selector (svc, changed) (ok (selector, true)) =
      ok (record svc { spec = record svc.spec { selector = selector } }, true)
  with_selector (svc, changed) (ok (selector, false)) = ok (svc, changed)

  pub reroute : String → Service × Bool → Result (Service × Bool)
  reroute no_prefix_label_regexp (svc, changed) =
      if r.service_reroute_enabled
      then with_selector (svc, changed)
          (change_labels r.compile svc.spec.selector no_prefix_label_regexp)
      else ok (svc, changed)

  -- The service with all that it needs to follow, and whether that is new.
  pub prepare : Service → String → Result (Service × Bool)
  unfolding reroute
  prepare svc selector =
      reroute (get annotation_no_prefix_label_regexp svc.meta.annotations) (
        mark selector
          (hold_if_needed (has_finalizer svc.meta.finalizers base.target.finalizer) svc))

  make_remote_service : Service → Service
  make_remote_service svc =
      let bare = Follow.bare_meta services base svc in
      let marked : Meta = record bare {
        annotations = insert annotation_key_is_delegate "" bare.annotations;
      } in
      record {
        meta = add_remote_controller_reference marked svc.meta base.cluster_name;
        spec =
            if svc.spec.cluster_ip == cluster_ip_none
            then svc.spec
            else record svc.spec { cluster_ip = ""; cluster_ips = [] };
      }

  -- The cluster IP is the target's, but for an external name.
  spec_for : ServiceSpec → ServiceSpec → ServiceSpec
  spec_for remote spec =
      if spec.kind == service_type_external_name
      then spec
      else record spec { cluster_ip = remote.cluster_ip; cluster_ips = remote.cluster_ips }

  updated_copy : Service → ServiceSpec → Service
  updated_copy remote spec = record remote {
    spec = spec;
    meta = record remote.meta {
      labels = insert label_key_parent_cluster_name base.cluster_name remote.meta.labels;
    };
  }

  pub update_copy : Service → Service → Option Service
  unfolding spec_for updated_copy
  update_copy svc remote =
      let spec = spec_for remote.spec svc.spec in
      if not (r.same_spec remote.spec spec)
        || not (get label_key_parent_cluster_name remote.meta.labels == base.cluster_name)
      then some (updated_copy remote spec)
      else none

  pub bring : String → Service → Option Service → Exec (Call Service) (Option ℕ)
  unfolding make_remote_service update_copy
  bring namespace svc =
      Follow.bring_labelled services base (make_remote_service svc) (update_copy svc) namespace

  pub update_if_needed : Service → Service × Bool → Exec (Call Service) Service
  update_if_needed svc (copy, false) = return svc
  update_if_needed svc (copy, true) = request base.server (update_local copy.meta.namespace copy)

  pub advance : String → Service → String → Option Service → Exec (Call Service) (Option ℕ)
  unfolding prepare update_if_needed bring
  advance namespace svc selector remote =
      lift (prepare svc selector) >>= update_if_needed svc >>= λ held. bring namespace held remote

  abbrev pub plan_for : String → Service → Result (Bool × String) → Plan Service
  plan_for namespace svc (err e) = err e
  plan_for namespace svc (ok (true, selector)) = ok (some (advance namespace svc selector))
  plan_for namespace svc (ok (false, selector)) = ok none

  pub plan : String → String → Service → Plan Service
  unfolding should_follow
  plan namespace name svc = plan_for namespace svc (should_follow svc)

  pub handle : String → Exec (Call Service) (Option ℕ)
  unfolding plan
  handle =
      Follow.handle services base "cannot delete orphaned service: "
        (λ svc. has_key annotation_key_is_delegate svc.meta.annotations) plan
