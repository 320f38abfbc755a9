-- ===== src/Upstream/Labels.antt =====
-- The labels of the virtual node.
use admiralty.Base.{
  String, ◌≡◌, refl, Bool, not, Option, [], ◌∷◌, Map, or_else, keep, lookup, insert, arith,
}
use admiralty.Agent.{Target, base_labels}
use admiralty.Upstream.{excludes, add_labels, reconcile_labels}

abbrev pub included : Option (String → Bool) → Map String → Map String
included excluded = keep (λ e. not (excludes excluded e.0 e.1))

module _ (target : Target) (excluded : Option (String → Bool)) where
  lookup-add_labels :
      (k : String) (l m : Map String)
      → lookup k (add_labels target excluded l m)
        ≡ or_else (lookup k (included excluded m)) (lookup k l)
  unfolding add_labels lookup insert
  lookup-add_labels k l [] = refl
  lookup-add_labels k l ((j, v) ∷ m) = ground (arith, lookup-add_labels k l m)

  -- A label of the virtual node is that of the cluster summary, unless the target excludes it or the
  -- summary has none, and then it is that of the target: a label of the summary that is not excluded
  -- takes the place of every label of the target, its virtual kubelet provider included.
  pub lookup-reconcile_labels :
      (k : String) (m : Map String)
      → lookup k (reconcile_labels target excluded m)
        ≡ or_else
            (lookup k (included excluded m))
            (lookup k (base_labels target.namespace target.name))
  unfolding reconcile_labels
  lookup-reconcile_labels k m = lookup-add_labels k (base_labels target.namespace target.name) m
