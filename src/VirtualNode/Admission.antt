-- ===== src/VirtualNode/Admission.antt =====
-- The proxy pod that the webhook makes can go to the virtual node of every target.
use admiralty.Base.{
  String, ◌≡◌, refl, subst, sym, Bool, true, Option, none, some, List, ◌∷◌, ◌++◌, any, All, Map,
  lookup, insert, has_key, ok, arith, eq_iff, Bool-cases, inl, inr, ◌==◌,
}
use admiralty.Common.{
  annotation_key_elect, label_and_taint_key_virtual_kubelet_provider, virtual_kubelet_provider_name,
  proxy_scheduler_name,
}
use admiralty.Kube.{Toleration, PodSpec, Pod}
use admiralty.Agent.{Target, base_labels}
use admiralty.Upstream.{reconcile_labels}
use admiralty.Upstream.Labels.{included, lookup-reconcile_labels}
use admiralty.Webhook.{Mutator, finish, base_selector, base_tolerations, default}
use admiralty.Webhook.Scheduling.{
  Unconstrained, Finished, default-Finished, finish-tolerations, finish-selector,
}
use admiralty.VirtualNode.{Taint, provider_taint, Node, node_from_opts}

-- v1.Toleration's `ToleratesTaint`, as far as its documentation is used: no operator stands for
-- `Equal`, and no effect for every effect.
abbrev pub EqualTolerates : (Toleration → Taint → Bool) → Type 0
EqualTolerates tolerates =
    (t : Toleration) (taint : Taint)
    → t.operator ≡ ""
    → t.effect ≡ ""
    → t.key ≡ taint.key
    → t.value ≡ taint.value
    → tolerates t taint ≡ true

abbrev Tolerates : (Toleration → Taint → Bool) → List Toleration → Taint → Type 0
Tolerates tolerates tolerations taint = any (λ t. tolerates t taint) tolerations ≡ true

-- A node selector matches labels that have each of its entries.
abbrev Matches : Map String → Map String → Type 0
Matches selector labels = (k v : String) → lookup k selector ≡ some v → lookup k labels ≡ some v

-- `once` is scheduled by the proxy scheduler and tolerates every taint of the virtual node; and
-- where the user constrains nothing, it selects the node's labels, and those that the upstream
-- resources controller gives the node, if it brings no provider from the cluster summary.
pub record Admitted (tolerates : Toleration → Taint → Bool) (pod once : Pod) (t : Target) (n : Node)
    : Type 0 where
  pub scheduler : once.spec.scheduler_name ≡ proxy_scheduler_name
  pub tolerant : All (Tolerates tolerates once.spec.tolerations) n.taints
  pub selected : Unconstrained pod → Matches once.spec.node_selector n.labels
  pub relabelled :
      (excluded : Option (String → Bool)) (summary : Map String)
      → lookup label_and_taint_key_virtual_kubelet_provider (included excluded summary) ≡ none
      → Unconstrained pod
      → Matches once.spec.node_selector (reconcile_labels t excluded summary)

-- An entry of the base selector is the provider's.
base_selector-lookup :
    (k v : String)
    → lookup k base_selector ≡ some v
    → (label_and_taint_key_virtual_kubelet_provider ≡ k) × (virtual_kubelet_provider_name ≡ v)
unfolding lookup
base_selector-lookup k v e =
    let same = eq_iff label_and_taint_key_virtual_kubelet_provider k in
    (ground (arith, same), ground (arith, same))

base_selector-Matches :
    (labels : Map String)
    → lookup label_and_taint_key_virtual_kubelet_provider labels
      ≡ some virtual_kubelet_provider_name
    → Matches base_selector labels
base_selector-Matches labels h k v e =
    let (same, value) = base_selector-lookup k v e in
    subst (λ k. lookup k labels ≡ some v) same
      (subst (λ v. lookup label_and_taint_key_virtual_kubelet_provider labels ≡ some v) value h)

any-head {ℓ} :
    {A : Type ℓ} (p : A → Bool) (x : A) (xs : List A) → p x ≡ true → any p (x ∷ xs) ≡ true
any-head p x xs h = rw h refl

module _ (t : Target) (now later pod_ip : String) where
  base-Tolerates :
      (tolerates : Toleration → Taint → Bool) (more : List Toleration)
      → EqualTolerates tolerates
      → All
          (Tolerates tolerates (base_tolerations ++ more))
          (node_from_opts now later pod_ip t).taints
  unfolding node_from_opts
  base-Tolerates tolerates more law = (
    any-head (λ t. tolerates t provider_taint) _
        (record {
          key = "node.kubernetes.io/network-unavailable";
          operator = "Exists";
          value = "";
          effect = "";
        }
          ∷ more)
        (law _ _ refl refl refl refl),
    tt,
  )

  provider-base_labels :
      lookup label_and_taint_key_virtual_kubelet_provider (base_labels t.namespace t.name)
      ≡ some virtual_kubelet_provider_name
  unfolding base_labels lookup insert
  provider-base_labels = elim (Bool-cases (t.namespace == "")) [
    | inl e ↦ rw e refl
    | inr e ↦ rw e refl
  ]

  provider-reconcile_labels :
      (excluded : Option (String → Bool)) (summary : Map String)
      → lookup label_and_taint_key_virtual_kubelet_provider (included excluded summary) ≡ none
      → lookup label_and_taint_key_virtual_kubelet_provider (reconcile_labels t excluded summary)
        ≡ some virtual_kubelet_provider_name
  provider-reconcile_labels excluded summary h = rw (
    lookup-reconcile_labels t excluded label_and_taint_key_virtual_kubelet_provider summary,
    h,
    provider-base_labels,
  )

  node-labels : (node_from_opts now later pod_ip t).labels ≡ base_labels t.namespace t.name
  unfolding node_from_opts
  node-labels = refl

  -- Every proxy pod that the webhook makes is for the proxy scheduler and tolerates the taints of
  -- every target's virtual node. Where the user constrains nothing, its node selector matches the
  -- node's labels, as the node is made, and as the upstream resources controller has them after a
  -- cluster summary that brings no provider.
  pub default-Admitted :
      (tolerates : Toleration → Taint → Bool) (m : Mutator) (pod once : Pod)
      → EqualTolerates tolerates
      → has_key annotation_key_elect pod.meta.annotations ≡ true
      → default m pod ≡ ok once
      → Admitted tolerates pod once t (node_from_opts now later pod_ip t)
  default-Admitted tolerates m pod once law elect e = go (default-Finished m pod once elect e)
    where
      admit :
          (carried : Pod) (given : Option PodSpec)
          → (Unconstrained pod → given ≡ none)
          → Admitted tolerates pod (finish m carried given) t (node_from_opts now later pod_ip t)
      admit carried given plain =
          let (more, tolerations, scheduler) = finish-tolerations m carried given in
          let selector : Unconstrained pod
              → (finish m carried given).spec.node_selector ≡ base_selector =
            λ u. rw (plain u) (finish-selector m carried) in
          record {
            scheduler = scheduler;
            tolerant = rw tolerations (base-Tolerates tolerates more law);
            selected =
                λ u. rw (selector u, node-labels) (base_selector-Matches _ provider-base_labels);
            relabelled = λ excluded summary h u.
                rw (selector u)
                  (base_selector-Matches _ (provider-reconcile_labels excluded summary h));
          }

      go : Finished m pod once → Admitted tolerates pod once t (node_from_opts now later pod_ip t)
      go (carried, given, made, plain) =
          subst (λ p. Admitted tolerates pod p t (node_from_opts now later pod_ip t)) (sym made)
            (admit carried given plain)
