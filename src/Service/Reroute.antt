-- ===== src/Service/Reroute.antt =====
-- The original selector of a service, before and after it is rerouted.
use admiralty.Base.{
  ◌==◌, eq_iff, ◌∙◌, Option-cases, String, ◌≡◌, refl, sym, ap, Bool, true, false, some, [], ◌∷◌,
  Map, get, lookup, All, Result, ok, err, arith, inl, inr, ok_inj,
}
use admiralty.Common.{is_ours, annotation_key_original_selector, annotation_no_prefix_label_regexp}
use admiralty.Controller.{has_finalizer}
use admiralty.DelegatePod.{change_loop, change_labels}
use admiralty.DelegatePod.Labels.{
  change_labels-all, change_loop-cons, change_loop-IsOurs, change_loop-changed,
}
use admiralty.Service.{
  Service, Reconciler, user_selector, follows_by, recover, original_or, selects, original_selector,
  should_follow, with_selector, reroute, mark, prepare, hold_if_needed,
}
use admiralty.Service.Prepare.{mark-SameBut, mark-IsMarked, hold_if_needed-same}

lookup-get : (k v : String) (m : Map String) → get k m ≡ v → (v == "") ≡ false → lookup k m ≡ some v
lookup-get k v m e full = elim (Option-cases (lookup k m)) [
  | inl missing ↦ ground (arith, eq_iff v "")
  | inr (w, found) ↦ ground arith
]

user_selector-ours : (m : Map String) → All (λ e. is_ours e.0 ≡ true) m → user_selector m ≡ []
unfolding user_selector
user_selector-ours [] all = refl
user_selector-ours ((k, v) ∷ m) (ours, all) = rw ours (user_selector-ours m all)

module _ (r : Reconciler) where
  follows_by-cons :
      (svc : Service) (e : String × String) (m selector : Map String)
      → selector ≡ e ∷ m
      → follows_by r svc selector ≡ selects r svc (original_selector r svc)
  unfolding original_selector
  follows_by-cons svc e m selector full = rw full

  -- A service with a selector follows if the original selector has a proxy pod.
  should_follow-by :
      (svc : Service) (e : String × String) (m sel : Map String)
      → svc.spec.selector ≡ e ∷ m
      → original_selector r svc ≡ ok sel
      → should_follow r svc ≡ selects r svc (ok sel)
  unfolding should_follow
  should_follow-by svc e m sel full original =
      follows_by-cons svc e m svc.spec.selector full ∙ ap (selects r svc) original

  with_selector-all :
      (svc : Service) (c : Bool) (q : Service × Bool) (k v : String) (m : Map String)
      (result : Result (Map String × Bool))
      → ((p : Map String × Bool) → result ≡ ok p → change_loop (λ k v. false) ((k, v) ∷ m) ≡ p)
      → with_selector r (svc, c) result ≡ ok q
      → (q.0.meta ≡ svc.meta) × (q.0.spec.selector ≡ (change_loop (λ k v. false) ((k, v) ∷ m)).0)
  with_selector-all svc c q k v m (err e) changed done = cc
  with_selector-all svc c q k v m (ok (selector, true)) changed done = (
    ap (λ q. q.0.meta) (sym (ok_inj done)),
    ap (λ q. q.0.spec.selector) (sym (ok_inj done)) ∙ ap (λ p. p.0) (sym (changed _ refl)),
  )
  with_selector-all svc c q k v m (ok (selector, false)) changed done =
      cc (change_loop-changed k v m, changed (selector, false) refl)

  -- Where nothing is kept as it is, rerouting puts the whole selector under this program's prefix.
  reroute-all :
      (svc : Service) (c : Bool) (q : Service × Bool) (k v : String) (m : Map String)
      → r.service_reroute_enabled ≡ true
      → svc.spec.selector ≡ (k, v) ∷ m
      → reroute r "" (svc, c) ≡ ok q
      → (q.0.meta ≡ svc.meta) × (q.0.spec.selector ≡ (change_loop (λ k v. false) ((k, v) ∷ m)).0)
  unfolding reroute
  reroute-all svc c q k v m enabled full done =
      with_selector-all svc c q k v m (change_labels r.compile svc.spec.selector "")
        (λ p changed.
          sym (ap (λ s. change_loop (λ k v. false) s) full)
          ∙ change_labels-all r.compile svc.spec.selector p changed)
        (rw (enabled) at done)

  original_or-recovered :
      (p : Service) (selector : String) (sel own : Map String)
      → own ≡ []
      → lookup annotation_key_original_selector p.meta.annotations ≡ some selector
      → r.parse selector ≡ ok sel
      → original_or r p own ≡ ok sel
  original_or-recovered p selector sel own none_left kept parsed =
      ap (original_or r p) none_left ∙ recovered
    where
      recovered : recover r p ≡ ok sel
      recovered = ground arith

  original_selector-rerouted :
      (p : Service) (selector : String) (sel labels : Map String)
      → p.spec.selector ≡ (change_loop (λ k v. false) labels).0
      → get annotation_key_original_selector p.meta.annotations ≡ selector
      → (selector == "") ≡ false
      → r.parse selector ≡ ok sel
      → original_selector r p ≡ ok sel
  unfolding original_selector
  original_selector-rerouted p selector sel labels rerouted kept full parsed =
      original_or-recovered p selector sel (user_selector p.spec.selector)
        (ap user_selector rerouted ∙ user_selector-ours _ (change_loop-IsOurs labels))
        (lookup-get annotation_key_original_selector selector p.meta.annotations kept full) parsed

  selects-same :
      (p svc : Service) (sel : Map String)
      → p.meta.namespace ≡ svc.meta.namespace
      → selects r p (ok sel) ≡ selects r svc (ok sel)
  selects-same p svc sel same = rw same

  -- A service that is prepared with a selector has that selector again.
  original_selector-prepared :
      (svc p : Service) (c : Bool) (k v : String) (m sel : Map String) (selector : String)
      → r.service_reroute_enabled ≡ true
      → svc.spec.selector ≡ (k, v) ∷ m
      → get annotation_no_prefix_label_regexp svc.meta.annotations ≡ ""
      → r.parse selector ≡ ok sel
      → (selector == "") ≡ false
      → prepare r svc selector ≡ ok (p, c)
      → (original_selector r p ≡ ok sel)
        × (p.meta.namespace ≡ svc.meta.namespace)
        × (p.spec.selector ≡ (change_loop (λ k v. false) ((k, v) ∷ m)).0)
  unfolding prepare
  original_selector-prepared svc p c k v m sel selector enabled full plain parsed filled done =
      let j = has_finalizer svc.meta.finalizers r.base.target.finalizer in
      let held = hold_if_needed r j svc in
      let marked = mark selector held in
      let same = mark-SameBut selector held in
      let marks = mark-IsMarked selector held in
      let kept = hold_if_needed-same r j svc in
      let rerouted =
        reroute-all marked.0 marked.1 (p, c) k v m enabled
          (ap (λ s. s.selector) (same.2 ∙ kept.1) ∙ full) (rw (plain) at done) in
      (
        original_selector-rerouted p selector sel ((k, v) ∷ m) rerouted.1
            (ap (λ a. get annotation_key_original_selector a.annotations) rerouted.0 ∙ marks.0)
            filled parsed,
        ap (λ a. a.namespace) rerouted.0 ∙ same.1 ∙ kept.0,
        rerouted.1,
      )

  should_follow-empty :
      (svc : Service) → svc.spec.selector ≡ [] → should_follow r svc ≡ ok (false, "")
  unfolding should_follow
  should_follow-empty svc full = rw full refl

-- Where a service follows with a selector, rerouting is enabled, the user keeps no label as it is, and
-- the printed selector is not empty and is parsed as the selector that it was printed from: the
-- service as it is prepared, with its selector turned to the delegate pods, follows with the same one.
pub should_follow-prepare :
    (r : Reconciler) (svc p : Service) (c : Bool) (sel : Map String) (selector : String)
    → r.service_reroute_enabled ≡ true
    → should_follow r svc ≡ ok (true, selector)
    → original_selector r svc ≡ ok sel
    → get annotation_no_prefix_label_regexp svc.meta.annotations ≡ ""
    → r.parse selector ≡ ok sel
    → (selector == "") ≡ false
    → prepare r svc selector ≡ ok (p, c)
    → should_follow r p ≡ ok (true, selector)
should_follow-prepare r svc p c sel selector enabled follows original plain parsed filled done =
    by_selector svc.spec.selector refl
  where
    by_selector : (s : Map String) → svc.spec.selector ≡ s → should_follow r p ≡ ok (true, selector)
    by_selector [] full = cc (should_follow-empty r svc full)
    by_selector ((k, v) ∷ m) full =
        let (found, here, rerouted) =
          original_selector-prepared r svc p c k v m sel selector enabled full plain parsed filled
            done in
        let (e, rest, more) = change_loop-cons k v m in
        should_follow-by r p e rest sel (rerouted ∙ more) found
        ∙ selects-same r p svc sel here
        ∙ sym (should_follow-by r svc (k, v) m sel full original)
        ∙ follows
