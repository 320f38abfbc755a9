-- ===== src/Resources.antt =====
-- pkg/controllers/resources/downstream.go, in a target cluster: the cluster summary has the sums of
-- the nodes' resources, and the labels on which the nodes that have them agree. A quantity is of a
-- library's type: the type and its addition are parameters, and so is the comparison of summaries.
pub mod Sums
pub mod Agreement
pub mod Summary
pub mod Events
mod Examples
use admiralty.Base.{
  ℕ, String, Bool, true, false, not, ◌||◌, ◌&&◌, Option, none, some, List, [], ◌∷◌, Map, lookup,
  insert, delete, ◌==◌, if◌then◌else◌, Result, ok, err, Error, is_not_found, Exec, return, fail,
  lift, try, request, ◌>>=◌, ◌>>◌,
}

pub record Node (Q : Type 0) : Type 0 where
  pub labels : Map String
  pub capacity : Map Q
  pub allocatable : Map Q

pub record ClusterSummary (Q : Type 0) : Type 0 where
  pub name : String
  pub labels : Map String
  pub capacity : Map Q
  pub allocatable : Map Q

module _ {Q : Type 0} (plus : Q → Q → Q) where
  -- for res, qty := range …: a resource is added to what is there
  abbrev pub add_resource : String → Q → Option Q → Map Q → Map Q
  add_resource res qty none acc = insert res qty acc
  add_resource res qty (some val) acc = insert res (plus val qty) acc

  pub add_resources : Map Q → Map Q → Map Q
  add_resources acc [] = acc
  add_resources acc ((res, qty) ∷ more) =
      add_resources (add_resource res qty (lookup res acc) acc) more

-- The labels so far, and the keys that were seen with several values.
abbrev pub is_multiple : Map Bool → String → Bool
is_multiple multiple k = elim (lookup k multiple) [ none ↦ false | some b ↦ b ]

abbrev pub merge_label :
    String → String → Option String → Bool → Map String × Map Bool → Map String × Map Bool
merge_label k v none true s = s
merge_label k v none false (l, multiple) = (insert k v l, multiple)
merge_label k v (some c) seen (l, multiple) =
    if c == v then (l, multiple) else (delete k l, insert k true multiple)

pub merge_labels : Map String × Map Bool → Map String → Map String × Map Bool
merge_labels s [] = s
merge_labels s ((k, v) ∷ more) =
    merge_labels (merge_label k v (lookup k s.0) (is_multiple s.1 k) s) more

pub data Call (Q : Type 0) : Type 0 where
  get_summary : Call Q
  create_summary : ClusterSummary Q → Call Q
  update_summary : ClusterSummary Q → Call Q

pub record Reconciler (Q : Type 0) : Type 0 where
  pub plus : Q → Q → Q
  pub server : (log : List (Call Q)) (c : Call Q) → Result (ClusterSummary Q)
  pub node_lister : Result (List (Node Q))  -- the nodes that are not virtual
  pub same_resources : Map Q → Map Q → Bool
  pub same_labels : Map String → Map String → Bool

module _ {Q : Type 0} (r : Reconciler Q) where
  open r use {server, plus, same_resources, same_labels}

  -- The loop over the nodes: capacity, allocatable and labels.
  pub summarize : Map Q → Map Q → Map String × Map Bool → List (Node Q) → ClusterSummary Q
  summarize capacity allocatable s [] = record {
    name = "singleton";
    labels = s.0;
    capacity = capacity;
    allocatable = allocatable;
  }
  summarize capacity allocatable s (node ∷ nodes) =
      summarize (add_resources plus capacity node.capacity)
        (add_resources plus allocatable node.allocatable) (merge_labels s node.labels) nodes

  bring_summary : ClusterSummary Q → ClusterSummary Q → Exec (Call Q) (Option ℕ)
  bring_summary gold actual =
      if same_resources gold.capacity actual.capacity
        && same_resources gold.allocatable actual.allocatable
        && same_labels gold.labels actual.labels
      then return none
      else (request server (
            update_summary (record actual {
              allocatable = gold.allocatable;
              capacity = gold.capacity;
              labels = gold.labels;
            }))
          >>= λ _. return none)

  -- An error of the `Get` other than that the summary is missing is passed over: what the client
  -- returns with it, `left`, is taken for the summary.
  use_summary : ClusterSummary Q → ClusterSummary Q → Error → Exec (Call Q) (Option ℕ)
  use_summary gold left e =
      if is_not_found e
      then (request server (create_summary gold) >>= bring_summary gold)
      else bring_summary gold left

  pub handle : ClusterSummary Q → Exec (Call Q) (Option ℕ)
  handle left = do
    nodes ← lift r.node_lister
    let gold = summarize [] [] ([], []) nodes
    try (request server get_summary) (use_summary gold left) (bring_summary gold)
