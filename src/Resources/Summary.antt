-- ===== src/Resources/Summary.antt =====
-- The cluster summary, from all the entries of all the nodes.
use admiralty.Base.{String, ◌≡◌, refl, sym, ap, ◌∙◌, Bool, none, List, [], ◌∷◌, ◌++◌, Map, lookup}
use admiralty.Resources.{
  Node, add_resource, add_resources, is_multiple, merge_label, merge_labels, Reconciler, summarize,
}
use admiralty.Resources.Sums.{values, total, lookup-add_resources}
use admiralty.Resources.Agreement.{consensus, lookup-merge_labels}

-- The entries of one field of all the nodes.
abbrev pub entries {ℓ} : {A : Type 0} {B : Type ℓ} → (A → Map B) → List A → Map B
entries field [] = []
entries field (node ∷ nodes) = field node ++ entries field nodes

merge_labels-append :
    (s : Map String × Map Bool) (m n : Map String)
    → merge_labels s (m ++ n) ≡ merge_labels (merge_labels s m) n
unfolding merge_labels
merge_labels-append s [] n = refl
merge_labels-append s ((k, v) ∷ m) n =
    merge_labels-append (merge_label k v (lookup k s.0) (is_multiple s.1 k) s) m n

module _ {Q : Type 0} (r : Reconciler Q) where
  add_resources-append :
      (acc m n : Map Q)
      → add_resources r.plus acc (m ++ n) ≡ add_resources r.plus (add_resources r.plus acc m) n
  unfolding add_resources
  add_resources-append acc [] n = refl
  add_resources-append acc ((k, q) ∷ m) n =
      add_resources-append (add_resource r.plus k q (lookup k acc) acc) m n

  -- The loop over the nodes is three loops over all entries.
  summarize-entries :
      (capacity allocatable : Map Q) (s : Map String × Map Bool) (nodes : List (Node Q))
      → (summarize r capacity allocatable s nodes).capacity
          ≡ add_resources r.plus capacity (entries (λ n. n.capacity) nodes)
        × ((summarize r capacity allocatable s nodes).allocatable
            ≡ add_resources r.plus allocatable (entries (λ n. n.allocatable) nodes))
        × ((summarize r capacity allocatable s nodes).labels
            ≡ (merge_labels s (entries (λ n. n.labels) nodes)).0)
  unfolding summarize add_resources merge_labels
  summarize-entries capacity allocatable s [] = (refl, refl, refl)
  summarize-entries capacity allocatable s (node ∷ nodes) =
      let (c, a, l) =
        summarize-entries (add_resources r.plus capacity node.capacity)
          (add_resources r.plus allocatable node.allocatable) (merge_labels s node.labels) nodes in
      (
        c ∙ sym (add_resources-append capacity node.capacity (entries (λ n. n.capacity) nodes)),
        a
            ∙ sym (
                add_resources-append allocatable node.allocatable
                  (entries (λ n. n.allocatable) nodes)),
        l ∙ ap (λ t. t.0) (sym (merge_labels-append s node.labels (entries (λ n. n.labels) nodes))),
      )

  -- The summary has, for each resource, the sum of all the nodes' values, in both lists; and a label
  -- if the nodes have a value for it and no two different ones, with that value.
  pub summarize_lem :
      (nodes : List (Node Q)) (k : String)
      → let gold = summarize r [] [] ([], []) nodes in
        (lookup k gold.capacity ≡ total r.plus none (values k (entries (λ n. n.capacity) nodes)))
        × (lookup k gold.allocatable
            ≡ total r.plus none (values k (entries (λ n. n.allocatable) nodes)))
        × (lookup k gold.labels ≡ consensus (values k (entries (λ n. n.labels) nodes)))
  unfolding lookup
  summarize_lem nodes k =
      let (c, a, l) = summarize-entries [] [] ([], []) nodes in
      (
        ap (lookup k) c ∙ lookup-add_resources r.plus k [] (entries (λ n. n.capacity) nodes),
        ap (lookup k) a ∙ lookup-add_resources r.plus k [] (entries (λ n. n.allocatable) nodes),
        ap (lookup k) l ∙ lookup-merge_labels k (entries (λ n. n.labels) nodes),
      )
