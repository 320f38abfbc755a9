-- ===== src/Plugins/Proxy/Bind.antt =====
-- From the choice of a virtual node to the bound proxy pod: `Reserve`, `PreBind` and `PostBind`.
use admiralty.Base.{
  String, ◌≡◌, ◌≢◌, refl, ap, Bool, true, false, not, ◌&&◌, Option, none, some, inl, inr, List, [],
  ◌∷◌, ◌++◌, map, keep, get, has_key, ok, Result, err, Exec, return, send, lift, fail, request, try,
  try-Returns, if-Returns, All, run, arith, eq_iff, ◌==◌, Bool-cases, ◌∙◌, bind_ok, try_ok,
  bind-Gives, if-Gives, if◌then◌else◌, Map,
}
use admiralty.Common.{annotation_key_no_reservation}
use admiralty.Kube.{PodCondition, Pod, PodChaperon}
use admiralty.Agent.{Target}
use admiralty.Plugins.{success, Met, poll-Met}
use admiralty.Plugins.Proxy.{
  Call, list_chaperons, patch_allowed, delete_chaperons, Environment, Plugin, bound_by,
  bound_candidate, forget_pod, get_candidate, allow_candidate, reserve_found, reserve,
  candidate_is_bound, pre_bind, out_of_scope, delete_others, post_bind,
}
use admiralty.Plugins.Proxy.Filter.{Listed, get_candidate-Listed}

-- The first condition on the pod's scheduling says that the pod is bound.
abbrev pub SaysBound : List PodCondition → Type 0
SaysBound conditions =
    (before after : List PodCondition) × (cond : PodCondition) × (conditions
      ≡ before ++ (cond ∷ after))
    × All (λ c. c.kind ≢ "PodScheduled") before
    × (cond.kind ≡ "PodScheduled")
    × (cond.status ≡ "True")

bound_by-SaysBound :
    (conditions : List PodCondition) (u : Unit {0})
    → bound_by conditions ≡ ok (some u)
    → SaysBound conditions
unfolding bound_by
bound_by-SaysBound [] u e = cc
bound_by-SaysBound (cond ∷ conditions) u e = elim (Bool-cases (cond.kind == "PodScheduled")) [
  | inl k ↦ (
    [],
    conditions,
    cond,
    refl,
    tt,
    ground (arith, eq_iff cond.kind "PodScheduled"),
    ground (arith, eq_iff cond.status "True"),
  )
  | inr k ↦
      later (bound_by-SaysBound conditions u (skip k e))
        (ground (arith, eq_iff cond.kind "PodScheduled"))
]
  where
    skip :
        (cond.kind == "PodScheduled") ≡ false
        → bound_by (cond ∷ conditions) ≡ ok (some u)
        → bound_by conditions ≡ ok (some u)
    skip k e = ground arith

    later : SaysBound conditions → cond.kind ≢ "PodScheduled" → SaysBound (cond ∷ conditions)
    later (before, after, c, same, none_before, kind, status) k =
        (cond ∷ before, after, c, ap (λ cs. cond ∷ cs) same, (k, none_before), kind, status)

module _ (env : Environment) (pl : Plugin) (p : Pod) where
  candidate_is_bound-SaysBound :
      (cluster_name : String) (u : Unit {0})
      → Met (candidate_is_bound env pl p cluster_name) u
      → (seen : List Call) × (c : PodChaperon) × Listed env pl p cluster_name seen c
        × SaysBound c.status.conditions
  unfolding candidate_is_bound return lift
  candidate_is_bound-SaysBound cluster_name u (seen, met) =
      try-Returns _ _ _ seen met (λ x log' never. cc)
        (λ candidate log' got bound. says candidate (ap (λ r. r.0) got) bound)
    where
      says :
          (candidate : Option PodChaperon)
          → (get_candidate env pl p cluster_name seen).0 ≡ ok candidate
          → bound_candidate env pl candidate ≡ ok (some u)
          → (seen : List Call) × (c : PodChaperon) × Listed env pl p cluster_name seen c
            × SaysBound c.status.conditions
      says none got bound = cc
      says (some c) got bound = (
        seen,
        c,
        get_candidate-Listed env pl p cluster_name seen c got,
        bound_by-SaysBound c.status.conditions u bound,
      )

  -- `PreBind` succeeds only if the API server of the target has listed, at some time of the
  -- waiting, one candidate, whose first condition on scheduling says that it is bound.
  pub pre_bind-SaysBound :
      (node_name : String) (log : List Call)
      → (pre_bind env pl p node_name log).0 ≡ ok success
      → (seen : List Call) × (c : PodChaperon) × Listed env pl p node_name seen c
        × SaysBound c.status.conditions
  unfolding pre_bind return
  pre_bind-SaysBound node_name log e =
      try-Returns _ _ _ log e (λ x log' never. cc)
        (λ u log' polled done.
          candidate_is_bound-SaysBound node_name u
            (poll-Met _ u env.pre_binding log (ap (λ r. r.0) polled)))

  get_candidate-log :
      (cluster_name : String) (log log' : List Call) (c : Option PodChaperon)
      → get_candidate env pl p cluster_name log ≡ (ok c, log')
      → log' ≡ list_chaperons cluster_name p.meta.namespace p.meta.uid ∷ log
  unfolding get_candidate send lift fail
  get_candidate-log cluster_name log log' c e =
      if-Gives {v = (c, log')} (has_key cluster_name pl.targets) _ _ log e
        (λ known got. bind-Gives {v = (c, log')} _ _ log got (λ items l listed one. cc))
        (λ unknown never. cc)

  allow_candidate-log :
      (cluster_name : String) (c : PodChaperon) (log log' : List Call)
      → allow_candidate env pl c cluster_name log ≡ (ok tt, log')
      → log' ≡ patch_allowed cluster_name c.meta.namespace c.meta.name ∷ log
  unfolding allow_candidate send return fail
  allow_candidate-log cluster_name c log log' e =
      if-Gives {v = (tt, log')} (has_key cluster_name pl.targets) _ _ log e
        (λ known got. bind-Gives {v = (tt, log')} _ _ log got (λ patched l listed one. cc))
        (λ unknown never. cc)

  -- Where the pod wants a reservation, `Reserve` succeeds only if the API server has listed one
  -- candidate, and its calls are to list it and then to allow it.
  reserve-allows :
      (node_name : String) (log : List Call)
      → has_key annotation_key_no_reservation p.meta.annotations ≡ false
      → (reserve env pl p node_name log).0 ≡ ok success
      → (c : PodChaperon) × Listed env pl p node_name log c
        × ((reserve env pl p node_name log).1
            ≡ patch_allowed node_name c.meta.namespace c.meta.name
              ∷ list_chaperons node_name p.meta.namespace p.meta.uid
              ∷ log)
  unfolding reserve reserve_found return
  reserve-allows node_name log wants e = try-Returns _ _ _ log e (λ x log' never. cc) found
    where
      found :
          (candidate : Option PodChaperon) (log' : List Call)
          → get_candidate env pl p node_name log ≡ (ok candidate, log')
          → (reserve_found env pl p node_name candidate log').0 ≡ ok success
          → (c : PodChaperon) × Listed env pl p node_name log c
            × ((reserve env pl p node_name log).1
                ≡ patch_allowed node_name c.meta.namespace c.meta.name
                  ∷ list_chaperons node_name p.meta.namespace p.meta.uid
                  ∷ log)
      found none log' got e =
          if-Returns (has_key annotation_key_no_reservation p.meta.annotations) _ _ log' e
            (λ free never. cc) (λ no never. cc)
      found (some c) log' got e =
          try-Returns _ _ _ log' e (λ x l never. cc)
            (λ u l allowed done. (
              c,
              get_candidate-Listed env pl p node_name log c (ap (λ r. r.0) got),
              ap (λ r. r.1) (try_ok _ _ _ log log' (some c) got ∙ try_ok _ _ _ log' l u allowed)
                  ∙ allow_candidate-log node_name c log' l allowed
                  ∙ ap (λ l. patch_allowed node_name c.meta.namespace c.meta.name ∷ l)
                      (get_candidate-log node_name log log' (some c) got),
            ))

  -- The targets that the pod was not bound to, and whose scope holds the pod's namespace.
  abbrev pub is_other : String → String × Target → Bool
  is_other node_name entry =
      not (entry.0 == node_name) && not (out_of_scope env pl (get entry.0 pl.target_namespaces) p)

  abbrev pub deletion : String × Target → Call
  deletion entry = delete_chaperons entry.0 p.meta.namespace p.meta.uid

  abbrev pub newest_first : List Call → List Call → List Call
  newest_first [] log = log
  newest_first (c ∷ cs) log = newest_first cs (c ∷ log)

  delete_others_lem :
      (node_name : String) (targets : Map Target) (log : List Call)
      → delete_others env pl p node_name targets log
        ≡ (ok tt, newest_first (map deletion (keep (is_other node_name) targets)) log)
  unfolding delete_others try return send
  delete_others_lem node_name [] log = refl
  delete_others_lem node_name ((cluster, target) ∷ more) log =
      step (cluster == node_name) (out_of_scope env pl (get cluster pl.target_namespaces) p)
        (delete_others env pl p node_name more) (cluster, target) (keep (is_other node_name) more)
        (delete_others_lem node_name more) log
    where
      after :
          (rest : Exec Call (Unit {0})) (log : List Call) (r : Result (Unit {0}))
          → (elim r as (λ _. Result (Unit {0}) × List Call) [ ok a ↦ rest log | err x ↦ rest log ])
            ≡ rest log
      after rest log (ok a) = refl
      after rest log (err x) = refl

      step :
          (b c : Bool) (rest : Exec Call (Unit {0})) (entry : String × Target) (ks : Map Target)
          → ((log : List Call) → rest log ≡ (ok tt, newest_first (map deletion ks) log))
          → (log : List Call)
          → (if b
                then rest
                else if c
                then rest
                else try (request env.server (deletion entry)) (λ e. rest) (λ _. rest))
              log
            ≡ (
              ok tt,
              newest_first
                  (map deletion
                    (elim (not b && not c) as (λ _. Map Target) [ true ↦ entry ∷ ks | false ↦ ks ]))
                  log,
            )
      step true c rest entry ks h log = h log
      step false true rest entry ks h log = h log
      step false false rest entry ks h log =
          after rest (deletion entry ∷ log) (env.server log (deletion entry))
          ∙ h (deletion entry ∷ log)

  -- Whatever the API servers answer, `PostBind` asks for the deletion of the pod's candidates
  -- in every other target in scope, in order and in none but those, and then forgets the pod.
  pub post_bind_lem :
      (node_name : String)
      → run (post_bind env pl p node_name) ≡ (
        ok (forget_pod pl p),
        newest_first (map deletion (keep (is_other node_name) pl.targets)) [],
      )
  unfolding post_bind run return
  post_bind_lem node_name =
      bind_ok (delete_others env pl p node_name pl.targets) (λ _. return (forget_pod pl p)) [] _ tt
        (delete_others_lem node_name pl.targets [])
