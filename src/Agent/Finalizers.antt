-- ===== src/Agent/Finalizers.antt =====
-- The finalizers of the targets, as the webhook looks them up by namespace.
use admiralty.Base.{
  String, ◌≡◌, sym, List, [], ◌∷◌, ◌++◌, append_assoc, append-nil, map, keep, Map, lookup, insert,
  ◌==◌, eq_iff, eq_refl, arith, refl, subst, true, any, Among, inl, inr,
}
use admiralty.Agent.{
  Target, get_all, add_finalizers, get_known_finalizers, get_known_finalizers_by_namespace,
}

abbrev pub finalizers_in : String → List Target → List String
finalizers_in namespace targets =
    map (λ t. t.finalizer) (keep (λ t. t.namespace == namespace) targets)

get_all-add_finalizers :
    (namespace : String) (known : Map (List String)) (targets : List Target)
    → get_all namespace (add_finalizers known targets)
      ≡ get_all namespace known ++ finalizers_in namespace targets
unfolding add_finalizers lookup insert
get_all-add_finalizers namespace known [] = sym (append-nil (get_all namespace known))
get_all-add_finalizers namespace known (target ∷ targets) = ground (
  arith,
  eq_iff target.namespace namespace,
  append_assoc (get_all namespace known) (target.finalizer ∷ []) (finalizers_in namespace targets),
  get_all-add_finalizers namespace
      (insert target.namespace (get_all target.namespace known ++ (target.finalizer ∷ [])) known)
      targets,
)

-- The finalizers known for a namespace are those of the targets in that namespace, each once and in
-- the order of the targets.
get_known_finalizers_by_namespace_lem :
    (namespace : String) (targets : List Target)
    → get_all namespace (get_known_finalizers_by_namespace targets)
      ≡ finalizers_in namespace targets
unfolding get_known_finalizers_by_namespace lookup
get_known_finalizers_by_namespace_lem namespace targets =
    get_all-add_finalizers namespace [] targets

-- The finalizer of each target is known.
pub known-Among :
    (t : Target) (targets : List Target)
    → Among t targets
    → any (λ g. g == t.finalizer) (get_known_finalizers targets) ≡ true
unfolding get_known_finalizers
known-Among t [] there = absurd there
known-Among t (target ∷ targets) (inl same) =
    subst
      (λ target.
        any (λ g. g == t.finalizer) (target.finalizer ∷ get_known_finalizers targets) ≡ true)
      same (rw (eq_refl t.finalizer) refl)
known-Among t (target ∷ targets) (inr there) = ground (arith, known-Among t targets there)
