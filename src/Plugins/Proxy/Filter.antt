-- ===== src/Plugins/Proxy/Filter.antt =====
-- What the filter of virtual nodes lets pass, and the calls that it makes.
use admiralty.Base.{
  String, ◌≡◌, refl, ap, Bool, true, false, ◌||◌, Option, none, some, ◌⊎◌, inl, inr, List, [], ◌∷◌,
  get, has_key, ok, return, request, try, eq_iff, send, lift, fail, bind-Returns, try-Returns,
  if-Returns, not, ◌==◌, Makes, Makes-lift, Makes-bind-Yields, Yields-lift, makes_rules, All,
  All-calls, calls, arith, if◌then◌else◌,
}
use admiralty.Common.{
  label_and_taint_key_virtual_kubelet_provider, virtual_kubelet_provider_name,
  label_key_target_namespace, annotation_key_no_reservation, annotation_key_is_reserved,
}
use admiralty.Kube.{Meta, Pod, PodChaperon}
use admiralty.DelegatePod.{make_delegate_pod}
use admiralty.Plugins.{success, refused, unschedulable_and_unresolvable, Met, poll-Met, poll-Makes}
use admiralty.Plugins.Proxy.{
  Call, list_chaperons, create_chaperon, patch_allowed, delete_chaperons, Environment, Plugin,
  unreserved_in_a_previous_cycle, is_candidate_pod_unschedulable, at_most_one, get_candidate,
  create_candidate, judge, filter_condition, out_of_scope, filtered, filter,
}

module _ (env : Environment) (pl : Plugin) (pod : Pod) where
  -- The one candidate that the API server has listed after the calls `seen`.
  abbrev pub Listed : String → List Call → PodChaperon → Type 0
  Listed cluster_name seen c =
      env.server seen (list_chaperons cluster_name pod.meta.namespace pod.meta.uid) ≡ ok (c ∷ [])

  one_listed :
      (items : List PodChaperon) (c : PodChaperon)
      → at_most_one items ≡ ok (some c)
      → items ≡ c ∷ []
  one_listed [] c e = cc
  one_listed (d ∷ []) c e = cc
  one_listed (d ∷ f ∷ more) c e = cc

  pub get_candidate-Listed :
      (cluster_name : String) (log : List Call) (c : PodChaperon)
      → (get_candidate env pl pod cluster_name log).0 ≡ ok (some c)
      → Listed cluster_name log c
  unfolding get_candidate send lift fail
  get_candidate-Listed cluster_name log c e =
      if-Returns (has_key cluster_name pl.targets) _ _ log e
        (λ known got.
          bind-Returns _ _ log got
            (λ items log' listed one. listed_as items log' listed (one_listed items c one)))
        (λ unknown never. cc)
    where
      listed_as :
          (items : List PodChaperon) (log' : List Call)
          → request env.server (list_chaperons cluster_name pod.meta.namespace pod.meta.uid) log
            ≡ (ok items, log')
          → items ≡ c ∷ []
          → Listed cluster_name log c
      listed_as items log' e one = cc

  -- A candidate that was listed, is reserved, and is not unschedulable.
  abbrev pub SeenReserved : String → Type 0
  SeenReserved cluster_name =
      (seen : List Call) × (c : PodChaperon) × Listed cluster_name seen c
      × (has_key annotation_key_is_reserved c.meta.annotations ≡ true)
      × (is_candidate_pod_unschedulable c ≡ false)

  judge-Reserved :
      (cluster_name : String) (log : List Call) (candidate : Option PodChaperon)
      → (judge env pl pod cluster_name candidate log).0 ≡ ok (some false)
      → (c : PodChaperon) × (candidate ≡ some c)
        × (has_key annotation_key_is_reserved c.meta.annotations ≡ true)
        × (is_candidate_pod_unschedulable c ≡ false)
  unfolding judge return
  judge-Reserved cluster_name log none e = bind-Returns _ _ log e (λ u log' made never. cc)
  judge-Reserved cluster_name log (some c) e =
      let both = decided _ _ log e in (c, refl, both.0, both.1)
    where
      decided :
          (is_reserved is_unschedulable : Bool) (log : List Call)
          → ((if is_reserved || is_unschedulable
                then return {C = Call} {A = Option Bool} (some is_unschedulable)
                else return none)
              log).0
            ≡ ok (some false)
          → (is_reserved ≡ true) × (is_unschedulable ≡ false)
      decided true true log e = cc
      decided true false log e = (refl, refl)
      decided false true log e = cc
      decided false false log e = cc

  filter_condition-Reserved :
      (cluster_name : String)
      → Met (filter_condition env pl pod cluster_name) false
      → SeenReserved cluster_name
  unfolding filter_condition
  filter_condition-Reserved cluster_name (seen, met) =
      bind-Returns _ _ seen met (λ candidate log' got judged.
        found candidate seen (ap (λ r. r.0) got)
          (judge-Reserved cluster_name log' candidate judged))
    where
      found :
          (candidate : Option PodChaperon) (seen : List Call)
          → (get_candidate env pl pod cluster_name seen).0 ≡ ok candidate
          → ((c : PodChaperon) × (candidate ≡ some c)
              × (has_key annotation_key_is_reserved c.meta.annotations ≡ true)
              × (is_candidate_pod_unschedulable c ≡ false))
          → SeenReserved cluster_name
      found candidate seen got (c, same, reserved, schedulable) =
          (seen, c, get_candidate-Listed cluster_name seen c cc, reserved, schedulable)

-- A node passes the filter only if it is a virtual node, on which the pod was not unreserved
-- before, whose target's scope holds the pod's namespace; and the pod wants no reservation, or
-- the API server of the target has listed, at some time of the waiting, one candidate, reserved
-- and not unschedulable.
pub filter-success :
    (env : Environment) (pl : Plugin) (pod : Pod) (node : Meta) (log : List Call)
    → (filter env pl pod node log).0 ≡ ok success
    → (get label_and_taint_key_virtual_kubelet_provider node.labels ≡ virtual_kubelet_provider_name)
      × (unreserved_in_a_previous_cycle pl pod.meta.uid node.name ≡ false)
      × (out_of_scope env pl (get label_key_target_namespace node.labels) pod ≡ false)
      × ((has_key annotation_key_no_reservation pod.meta.annotations ≡ true)
          ⊎ SeenReserved env pl pod node.name)
unfolding filter return
filter-success env pl pod node log e =
    if-Returns
      (not (
        get label_and_taint_key_virtual_kubelet_provider node.labels
        == virtual_kubelet_provider_name))
      _ _ log e (λ foreign never. cc)
      (λ virtual e1.
        if-Returns (unreserved_in_a_previous_cycle pl pod.meta.uid node.name) _ _ log e1
          (λ failed never. cc)
          (λ kept e2.
            if-Returns (out_of_scope env pl (get label_key_target_namespace node.labels) pod) _ _
              log e2 (λ outside never. cc)
              (λ inside e3. (
                is_virtual virtual,
                kept,
                inside,
                if-Returns (has_key annotation_key_no_reservation pod.meta.annotations) _ _ log e3
                    (λ free passed. inl free) (λ bound polled. inr (passes polled)),
              ))))
  where
    is_virtual :
        not (
            get label_and_taint_key_virtual_kubelet_provider node.labels
            == virtual_kubelet_provider_name)
          ≡ false
        → get label_and_taint_key_virtual_kubelet_provider node.labels
          ≡ virtual_kubelet_provider_name
    is_virtual h = ground (
      arith,
      eq_iff (get label_and_taint_key_virtual_kubelet_provider node.labels)
          virtual_kubelet_provider_name,
    )

    passes :
        (try
            (env.filtering.poll (filter_condition env pl pod node.name))
            (λ e. return (refused unschedulable_and_unresolvable e.message))
            (λ u. return (filtered env pl u))
            log).0
          ≡ ok success
        → SeenReserved env pl pod node.name
    passes e =
        try-Returns _ _ _ log e (λ x log' never. cc)
          (λ u log' polled done. accepted u log' (ap (λ r. r.0) polled) done)
      where
        accepted :
            (u : Bool) (log' : List Call)
            → (env.filtering.poll (filter_condition env pl pod node.name) log).0 ≡ ok u
            → (return {C = Call} (filtered env pl u) log').0 ≡ ok success
            → SeenReserved env pl pod node.name
        accepted true log' polled done = cc
        accepted false log' polled done =
            filter_condition-Reserved env pl pod node.name
              (poll-Met _ false env.filtering log polled)

-- The calls that concern a pod's candidate in one cluster: to list it, and to make it.
module _ (env : Environment) (pl : Plugin) (pod : Pod) (cluster_name : String) where
  abbrev pub ListsOrCreates : Call → Type 0
  ListsOrCreates (list_chaperons cluster namespace uid) =
      (cluster ≡ cluster_name) × (namespace ≡ pod.meta.namespace) × (uid ≡ pod.meta.uid)
  ListsOrCreates (create_chaperon cluster namespace c) =
      (cluster ≡ cluster_name)
      × (make_delegate_pod env.unmarshal env.compile pod pl.cluster_name ≡ ok c)
  ListsOrCreates (patch_allowed cluster namespace name) = ⊥
  ListsOrCreates (delete_chaperons cluster namespace uid) = ⊥

  get_candidate-Makes : Makes ListsOrCreates (get_candidate env pl pod cluster_name)
  unfolding get_candidate
  get_candidate-Makes = search makes_rules

  create_candidate-Makes : Makes ListsOrCreates (create_candidate env pl pod cluster_name)
  unfolding create_candidate
  create_candidate-Makes =
      Makes-bind-Yields _ _ (Makes-lift _) (Yields-lift _ (λ c made. made))
        (λ c made. search makes_rules)

  judge-Makes : (c : Option PodChaperon) → Makes ListsOrCreates (judge env pl pod cluster_name c)
  unfolding judge
  judge-Makes none = search (makes_rules, create_candidate-Makes)
  judge-Makes (some c) = search makes_rules

  filter_condition-Makes : Makes ListsOrCreates (filter_condition env pl pod cluster_name)
  unfolding filter_condition
  filter_condition-Makes = search (makes_rules, get_candidate-Makes, judge-Makes)

  filter_poll-Makes :
      Makes ListsOrCreates (env.filtering.poll (filter_condition env pl pod cluster_name))
  filter_poll-Makes = poll-Makes _ env.filtering filter_condition-Makes

-- In a filter, whatever the API servers answer and for however long it polls, every call is made in
-- the cluster of the node, and lists the candidates of the pod or creates its delegate.
pub filter-ListsOrCreates :
    (env : Environment) (pl : Plugin) (pod : Pod) (node : Meta)
    → All (ListsOrCreates env pl pod node.name) (calls (filter env pl pod node))
unfolding filter
filter-ListsOrCreates env pl pod node =
    All-calls _ (search (makes_rules, filter_poll-Makes) depth 9)
