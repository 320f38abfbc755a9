-- ===== src/Service/Prepare.antt =====
-- What a service has once it is prepared to follow: the finalizer and three annotations.
use admiralty.Base.{
  ◌==◌, ◌∙◌, ℕ, String, ◌≡◌, refl, sym, ap, Bool, true, false, Option, none, some, [], ◌∷◌, ◌++◌,
  Map, get, lookup, insert, is_some, Result, ok, err, if◌then◌else◌, eq_iff, arith, Bool-cases, inl,
  inr, ok_inj,
}
use admiralty.Common.{
  annotation_key_global, annotation_key_cilium_global_service, annotation_key_original_selector,
}
use admiralty.Controller.{has_finalizer}
use admiralty.Follow
use admiralty.Service.{
  Service, Reconciler, annotate, with_selector, reroute, mark, prepare, hold_if_needed,
}

-- Annotating sets the annotation, and keeps all else but that one.
get-annotate :
    (k v j : String) (o : Service × Bool)
    → get j (annotate k v o).0.meta.annotations ≡ (if k == j then v else get j o.0.meta.annotations)
unfolding annotate insert lookup
get-annotate k v j o = ground (arith, eq_iff k j, eq_iff (get k o.0.meta.annotations) v)

abbrev SameBut : Service → Service → Type 0
SameBut a b =
    (a.meta.finalizers ≡ b.meta.finalizers)
    × (a.meta.namespace ≡ b.meta.namespace)
    × (a.spec ≡ b.spec)

annotate-SameBut :
    (k v : String) (o : Service × Bool) (svc : Service)
    → SameBut o.0 svc
    → SameBut (annotate k v o).0 svc
unfolding annotate
annotate-SameBut k v (old, c) svc same = elim (Bool-cases (get k old.meta.annotations == v)) [
  | inl e ↦ rw e same
  | inr e ↦ rw e same
]

pub mark-SameBut : (selector : String) (o : Service × Bool) → SameBut (mark selector o).0 o.0
unfolding mark
mark-SameBut selector o = annotate-SameBut annotation_key_original_selector selector _ o.0 (
    annotate-SameBut annotation_key_global "true" _ o.0
      (annotate-SameBut annotation_key_cilium_global_service "true" o o.0 (refl, refl, refl)))

-- The three annotations.
abbrev IsMarked : String → Service → Type 0
IsMarked selector svc =
    (get annotation_key_original_selector svc.meta.annotations ≡ selector)
    × (get annotation_key_global svc.meta.annotations ≡ "true")
    × (get annotation_key_cilium_global_service svc.meta.annotations ≡ "true")

pub mark-IsMarked : (selector : String) (o : Service × Bool) → IsMarked selector (mark selector o).0
unfolding mark
mark-IsMarked selector o =
    let cilium = annotate annotation_key_cilium_global_service "true" o in
    let global = annotate annotation_key_global "true" cilium in
    (
      get-annotate annotation_key_original_selector selector annotation_key_original_selector
          global,
      get-annotate annotation_key_original_selector selector annotation_key_global global
          ∙ get-annotate annotation_key_global "true" annotation_key_global cilium,
      get-annotate annotation_key_original_selector selector annotation_key_cilium_global_service
            global
          ∙ get-annotate annotation_key_global "true" annotation_key_cilium_global_service cilium
          ∙ get-annotate annotation_key_cilium_global_service "true"
              annotation_key_cilium_global_service o,
    )

module _ (r : Reconciler) where
  pub hold_if_needed-same :
      (j : Option ℕ) (svc : Service)
      → ((hold_if_needed r j svc).0.meta.namespace ≡ svc.meta.namespace)
        × ((hold_if_needed r j svc).0.spec ≡ svc.spec)
  unfolding Follow.hold
  hold_if_needed-same none svc = (refl, refl)
  hold_if_needed-same (some j) svc = (refl, refl)

  with_selector-meta :
      (svc : Service) (c : Bool) (q : Service × Bool) (result : Result (Map String × Bool))
      → with_selector r (svc, c) result ≡ ok q
      → q.0.meta ≡ svc.meta
  with_selector-meta svc c q (err e) done = cc
  with_selector-meta svc c q (ok (selector, true)) done = ap (λ q. q.0.meta) (sym (ok_inj done))
  with_selector-meta svc c q (ok (selector, false)) done = ap (λ q. q.0.meta) (sym (ok_inj done))

  reroute-meta :
      (regexp : String) (svc : Service) (c : Bool) (q : Service × Bool)
      → reroute r regexp (svc, c) ≡ ok q
      → q.0.meta ≡ svc.meta
  unfolding reroute
  reroute-meta regexp svc c q done = elim (Bool-cases r.service_reroute_enabled) [
    | inl e ↦ with_selector-meta svc c q _ (rw (e) at done)
    | inr e ↦ ap (λ q. q.0.meta) (sym (ok_inj (rw (e) at done)))
  ]

  -- What a prepared service holds.
  abbrev pub IsPrepared : Service → String → Service → Type 0
  IsPrepared svc selector p =
      (p.meta.finalizers ≡ (
        if is_some (has_finalizer svc.meta.finalizers r.base.target.finalizer)
        then svc.meta.finalizers
        else svc.meta.finalizers ++ (r.base.target.finalizer ∷ [])))
      × IsMarked selector p

  hold_if_needed-finalizers :
      (j : Option ℕ) (svc : Service)
      → (hold_if_needed r j svc).0.meta.finalizers ≡ (
          if is_some j
          then svc.meta.finalizers
          else svc.meta.finalizers ++ (r.base.target.finalizer ∷ []))
  unfolding Follow.hold
  hold_if_needed-finalizers none svc = refl
  hold_if_needed-finalizers (some j) svc = refl

  pub prepare-IsPrepared :
      (svc p : Service) (c : Bool) (selector : String)
      → prepare r svc selector ≡ ok (p, c)
      → IsPrepared svc selector p
  unfolding prepare
  prepare-IsPrepared svc p c selector done =
      let j = has_finalizer svc.meta.finalizers r.base.target.finalizer in
      let held = hold_if_needed r j svc in
      let marked = mark selector held in
      let marks = mark-IsMarked selector held in
      let metas = reroute-meta _ marked.0 marked.1 (p, c) done in
      (
        ap (λ a. a.finalizers) metas
            ∙ (mark-SameBut selector held).0
            ∙ hold_if_needed-finalizers j svc,
        (
          ap (λ a. get annotation_key_original_selector a.annotations) metas ∙ marks.0,
          ap (λ a. get annotation_key_global a.annotations) metas ∙ marks.1,
          ap (λ a. get annotation_key_cilium_global_service a.annotations) metas ∙ marks.2,
        ),
      )
