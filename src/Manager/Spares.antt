-- ===== src/Manager/Spares.antt =====
-- The cleanup spares the finalizers of the targets that controllers run for.
use admiralty.Base.{
  String, ◌≡◌, ◌≢◌, refl, sym, subst, ap, Bool, true, false, ◌⊎◌, inl, inr, Option, none, some,
  List, [], ◌∷◌, ◌++◌, Among, All, calls, if◌then◌else◌, some_inj, lookup, ◌∙◌,
}
use admiralty.Agent.{Target, get_known_finalizers}
use admiralty.Agent.Finalizers.{known-Among}
use admiralty.Cleanup
use admiralty.Cleanup.{Key, know, is_known}
use admiralty.Cleanup.Unknown.{is_known-know}
use admiralty.Cleanup.Spares.{Spares, handle-Spares}
use admiralty.Manager.{
  Controller, config_maps_follow, services_follow, secrets_follow, ingresses_follow, feedback,
  upstream, chaperon, downstream, cleanup, source, follow_controllers, cluster_scoped,
  by_virtual_node, run_controllers,
}
use admiralty.Manager.Wiring.{wired, all_wired, run_controllers_lem}

-- The target that a controller is started for, if it is started for one.
abbrev target_of : Controller → Option Target
target_of (config_maps_follow t) = some t
target_of (services_follow t) = some t
target_of (secrets_follow t) = some t
target_of (ingresses_follow t) = some t
target_of (feedback t cluster) = some t
target_of (upstream t cluster updater) = some t
target_of chaperon = none
target_of downstream = none
target_of (cleanup known) = none
target_of source = none

Among-append : {A : Type 0} (a : A) (xs ys : List A) → Among a (xs ++ ys) → Among a xs ⊎ Among a ys
Among-append a [] ys there = inr there
Among-append a (x ∷ xs) ys (inl same) = inl (inl same)
Among-append a (x ∷ xs) ys (inr there) = elim (Among-append a xs ys there) [
  | inl left ↦ inl (inr left)
  | inr right ↦ inr right
]

follow_controllers-target :
    (t : Target) (c : Controller) → Among c (follow_controllers t) → target_of c ≡ some t
unfolding follow_controllers
follow_controllers-target t c there = by_self t.self there
  where
    by_self :
        (self : Bool)
        → Among c (
            if self
            then []
            else config_maps_follow t
              ∷ services_follow t
              ∷ secrets_follow t
              ∷ ingresses_follow t
              ∷ [])
        → target_of c ≡ some t
    by_self true there = absurd there
    by_self false (inl e) = ap target_of e
    by_self false (inr (inl e)) = ap target_of e
    by_self false (inr (inr (inl e))) = ap target_of e
    by_self false (inr (inr (inr (inl e)))) = ap target_of e
    by_self false (inr (inr (inr (inr there)))) = absurd there

module _ (updater : Target → Option Target) where
  wired-target : (t : Target) (c : Controller) → Among c (wired updater t) → target_of c ≡ some t
  wired-target t c there = elim (Among-append c (follow_controllers t) _ there) [
    | inl follows ↦ follow_controllers-target t c follows
    | inr (inl e) ↦ ap target_of e
    | inr (inr (inl e)) ↦ ap target_of e
    | inr (inr (inr never)) ↦ absurd never
  ]

  all_wired-target :
      (targets : List Target) (c : Controller)
      → Among c (all_wired updater targets)
      → (t : Target) × Among t targets × (target_of c ≡ some t)
  all_wired-target [] c there = absurd there
  all_wired-target (target ∷ targets) c there =
      elim (Among-append c (wired updater target) _ there) [
        | inl here ↦ (target, inl refl, wired-target target c here)
        | inr later ↦
            let (t, among, same) = all_wired-target targets c later in (t, inr among, same)
      ]

cluster_scoped-target :
    (targets : List Target) (listed : Bool) (c : Controller)
    → Among c (cluster_scoped targets listed)
    → (target_of c ≡ none)
      × ((known : List String) → c ≡ cleanup known → known ≡ get_known_finalizers targets)
unfolding cluster_scoped
cluster_scoped-target targets listed c (inl e) = (ap target_of e, λ known same. cc)
cluster_scoped-target targets listed c (inr (inl e)) = (ap target_of e, λ known same. cc)
cluster_scoped-target targets listed c (inr (inr (inl e))) = (ap target_of e, λ known same. cc)
cluster_scoped-target targets true c (inr (inr (inr (inl e)))) = (ap target_of e, λ known same. cc)
cluster_scoped-target targets true c (inr (inr (inr (inr never)))) = absurd never
cluster_scoped-target targets false c (inr (inr (inr never))) = absurd never

-- Whatever the targets, and whether or not cluster sources can be listed: where the agent runs a
-- controller for a target, and the cleanup with some known finalizers, no pass of that cleanup takes
-- the target's finalizer off any object, whatever the listers and the API server answer.
pub cleanup-SparesTargets :
    (targets : List Target) (listed : Bool) (c : Controller) (t : Target) (known : List String)
    (r : Cleanup.Reconciler) (k : Key)
    → Among c (run_controllers targets listed).controllers
    → target_of c ≡ some t
    → Among (cleanup known) (run_controllers targets listed).controllers
    → r.known_finalizers ≡ know known
    → All (Spares t.finalizer) (calls (Cleanup.handle r k))
cleanup-SparesTargets targets listed c t known r k runs for_target cleans knows =
    handle-Spares t.finalizer r k (
      rw (knows, is_known-know known t.finalizer, known_here cleans)
        (known-Among t targets (target_here runs)))
  where
    updater : Target → Option Target
    updater target = lookup target.virtual_node_name (by_virtual_node [] targets)

    none-ne-some : none ≢ some t
    none-ne-some e = cc

    target_here : Among c (run_controllers targets listed).controllers → Among t targets
    target_here runs =
        elim (Among-append c (all_wired updater targets) _
          (subst (Among c) (run_controllers_lem targets listed) runs)) [
            | inl its ↦
                let (t', among, same) = all_wired-target updater targets c its in
                subst (λ t. Among t targets) (some_inj (sym same ∙ for_target)) among
            | inr scoped ↦
                absurd (
                  none-ne-some (sym (cluster_scoped-target targets listed c scoped).0 ∙ for_target))
          ]

    known_here :
        Among (cleanup known) (run_controllers targets listed).controllers
        → known ≡ get_known_finalizers targets
    known_here cleans =
        elim (Among-append (cleanup known) (all_wired updater targets) _
          (subst (Among (cleanup known)) (run_controllers_lem targets listed) cleans)) [
            | inl its ↦
                let (t', among, same) = all_wired-target updater targets (cleanup known) its in
                absurd (cc)
            | inr scoped ↦
                (cluster_scoped-target targets listed (cleanup known) scoped).1 known refl
          ]
