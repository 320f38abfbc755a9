-- ===== src/Webhook/Scheduling.antt =====
-- What the webhook writes about scheduling, on every branch that ends with a pod.
use admiralty.Base.{
  String, ◌≡◌, refl, sym, true, Option, none, some, List, [], ◌++◌, lookup, insert, has_key, Result,
  ok, err, ok_inj, arith,
}
use admiralty.Common.{
  annotation_key_elect, annotation_key_source_pod_manifest,
  annotation_key_proxy_pod_scheduling_constraints,
  annotation_key_use_constraints_from_spec_for_proxy_pod_scheduling, proxy_scheduler_name,
}
use admiralty.Kube.{Toleration, PodSpec, Pod}
use admiralty.Webhook.{
  Mutator, constrain, constraints, finish, base_selector, base_tolerations, with_constraints,
  mutate, elected, save_manifest, read_manifest, default,
}
use admiralty.Webhook.Idempotent.{carrying}

-- The user constrains the proxy pod in neither of the two ways.
abbrev pub Unconstrained : Pod → Type 0
Unconstrained pod =
    (lookup annotation_key_proxy_pod_scheduling_constraints pod.meta.annotations ≡ none)
    × (lookup annotation_key_use_constraints_from_spec_for_proxy_pod_scheduling pod.meta.annotations
        ≡ none)

-- A result of the webhook is what `finish` makes of the pod with its manifest.
abbrev pub Finished : Mutator → Pod → Pod → Type 0
Finished m pod once =
    (carried : Pod) × (given : Option PodSpec) × (once ≡ finish m carried given)
    × (Unconstrained pod → given ≡ none)

module _ (m : Mutator) (pod once : Pod) where
  constraints_of_none :
      (src carried : Pod) (given : Option PodSpec)
      → Unconstrained carried
      → constraints m src carried.meta.annotations ≡ ok given
      → given ≡ none
  unfolding constraints
  constraints_of_none src carried given (own, shared) e = ground arith

  mutate-Finished :
      (src carried : Pod)
      → (Unconstrained pod → Unconstrained carried)
      → mutate m src carried ≡ ok once
      → Finished m pod once
  mutate-Finished src carried plain e = go (constraints m src carried.meta.annotations) refl e
    where
      go :
          (r : Result (Option PodSpec))
          → constraints m src carried.meta.annotations ≡ r
          → with_constraints m carried r ≡ ok once
          → Finished m pod once
      go (err x) c e = cc
      go (ok given) c e =
          (carried, given, sym (ok_inj e), λ u. constraints_of_none src carried given (plain u) c)

  pub default-Finished :
      has_key annotation_key_elect pod.meta.annotations ≡ true
      → default m pod ≡ ok once
      → Finished m pod once
  unfolding default lookup insert
  default-Finished elect e =
      read (lookup annotation_key_source_pod_manifest pod.meta.annotations) (rw elect at e)
    where
      unmarshalled : (r : Result Pod) → read_manifest m pod r ≡ ok once → Finished m pod once
      unmarshalled (err x) e = cc
      unmarshalled (ok src) e = mutate-Finished src pod (λ u. u) e

      marshalled : (r : Result String) → save_manifest m pod r ≡ ok once → Finished m pod once
      marshalled (err x) e = cc
      marshalled (ok manifest) e = mutate-Finished pod (carrying pod manifest) (λ u. u) e

      read : (r : Option String) → elected m pod r ≡ ok once → Finished m pod once
      read none e = marshalled (m.marshal pod) e
      read (some manifest) e = unmarshalled (m.unmarshal_strict manifest) e

module _ (m : Mutator) where
  -- Whatever the constraints, the base tolerations come first and the proxy scheduler is asked for.
  pub finish-tolerations :
      (carried : Pod) (given : Option PodSpec)
      → (more : List Toleration) × ((finish m carried given).spec.tolerations
          ≡ base_tolerations ++ more)
        × ((finish m carried given).spec.scheduler_name ≡ proxy_scheduler_name)
  unfolding finish constrain
  finish-tolerations carried none = ([], refl, refl)
  finish-tolerations carried (some given) = (given.tolerations, refl, refl)

  pub finish-selector : (carried : Pod) → (finish m carried none).spec.node_selector ≡ base_selector
  unfolding finish constrain
  finish-selector carried = refl
