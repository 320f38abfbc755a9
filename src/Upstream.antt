-- ===== src/Upstream.antt =====
-- pkg/controllers/resources/upstream.go, in the source cluster: the virtual node of a target takes the
-- labels and the resources of the target's cluster summary. A quantity is of a library's type, and
-- so are the names of huge pages and the comparisons; the patch is the node with its new labels.
pub mod Labels
pub mod Events
mod Examples
use admiralty.Base.{
  ℕ, suc, ◌+◌, String, ◌<>◌, Bool, true, false, not, ◌||◌, ◌&&◌, Option, none, some, List, [], ◌∷◌,
  Map, any, insert, delete, ◌==◌, ltb, if◌then◌else◌, Result, ok, err, Error, Exec, return, fail,
  lift, request, ◌>>=◌, ◌>>◌,
}
use admiralty.Agent.{Target, base_labels}
use admiralty.Resources.{Node, ClusterSummary}

-- The last step of `NewUpstreamController`: an expression that does not compile is reported, and none
-- is used.
compile_excluded : (String → Result (String → Bool)) → Option String → Option (String → Bool)
compile_excluded compile none = none
compile_excluded compile (some expression) = elim (compile expression) [
  | err e ↦ none
  | ok matches ↦ some matches
]

-- The compiled expression is nil where the target has none, or one that does not compile.
abbrev pub excludes : Option (String → Bool) → String → String → Bool
excludes none k v = false
excludes (some matches) k v = matches (k <> ("=" <> v))

module _ (target : Target) (excluded : Option (String → Bool)) where
  pub add_labels : Map String → Map String → Map String
  add_labels l [] = l
  add_labels l ((k, v) ∷ more) =
      let rest = add_labels l more in if not (excludes excluded k v) then insert k v rest else rest

  pub reconcile_labels : Map String → Map String
  unfolding add_labels
  reconcile_labels cluster_summary_labels =
      add_labels (base_labels target.namespace target.name) cluster_summary_labels

module _ {Q : Type 0} (is_huge_page : String → Bool) (is_zero : Q → Bool) where
  -- IsHugePageResourceName(res) && !qty.IsZero()
  abbrev is_page : String × Q → Bool
  is_page entry = is_huge_page entry.0 && not (is_zero entry.1)

  -- The loop of hasMultipleHugePageSizes, with its counter.
  more_pages : ℕ → Map Q → Bool
  more_pages n [] = false
  more_pages n (entry ∷ more) =
      let next = more_pages (n + 1) more in
      let same = more_pages n more in
      if is_page entry then if ltb 1 (n + 1) then true else next else same

  has_multiple_huge_page_sizes : Map Q → Bool
  unfolding more_pages
  has_multiple_huge_page_sizes rl = more_pages 0 rl

  -- The keys are gathered in a first loop, and deleted in a second.
  page_keys : Map Q → List String
  page_keys [] = []
  page_keys (entry ∷ more) =
      let rest = page_keys more in if is_page entry then entry.0 ∷ rest else rest

  delete_all : List String → Map Q → Map Q
  delete_all [] rl = rl
  delete_all (k ∷ keys) rl = delete_all keys (delete k rl)

  purge_huge_page_resources : Map Q → Map Q
  unfolding page_keys delete_all
  purge_huge_page_resources rl = delete_all (page_keys rl) rl

pub data Call (Q : Type 0) : Type 0 where
  patch_node : String → Node Q → Call Q
  update_node_status : Node Q → Call Q

pub record Upstream (Q : Type 0) : Type 0 where
  pub target : Target
  pub excluded : Option (String → Bool)
  pub is_huge_page : String → Bool
  pub is_zero : Q → Bool
  pub server : (log : List (Call Q)) (c : Call Q) → Result (Node Q)
  pub cluster_summary : Result (ClusterSummary Q)
  pub other_nodes : List (Node Q)  -- none where `List` fails, since its error is overwritten
  pub node_lister : String → Result (Node Q)
  pub same_resources : Map Q → Map Q → Bool
  pub same_labels : Map String → Map String → Bool

module _ {Q : Type 0} (r : Upstream Q) where
  open r use {server, is_huge_page, is_zero, same_resources, same_labels}

  abbrev has_many : Map Q → Map Q → Bool
  has_many capacity allocatable =
      has_multiple_huge_page_sizes is_huge_page is_zero capacity
      || has_multiple_huge_page_sizes is_huge_page is_zero allocatable

  -- The summary, without huge pages where it has several sizes and no other node has.
  supported : ClusterSummary Q → ClusterSummary Q
  supported summary =
      let nodes_have = any (λ n. has_many n.capacity n.allocatable) r.other_nodes in
      if has_many summary.capacity summary.allocatable && not nodes_have
      then record summary {
        capacity = purge_huge_page_resources is_huge_page is_zero summary.capacity;
        allocatable = purge_huge_page_resources is_huge_page is_zero summary.allocatable;
      }
      else summary

  bring_labels : String → Map String → Node Q → Exec (Call Q) (Node Q)
  bring_labels target_name l virtual_node =
      if same_labels virtual_node.labels l
      then return virtual_node
      else request server (patch_node target_name (record virtual_node { labels = l }))

  -- The virtual kubelet's updater surfaces no errors.
  bring_resources : ClusterSummary Q → Node Q → Exec (Call Q) (Option ℕ)
  bring_resources summary virtual_node =
      if not (same_resources virtual_node.capacity summary.capacity)
        || not (same_resources virtual_node.allocatable summary.allocatable)
      then (λ log. (
        ok none,
        update_node_status (record virtual_node {
          allocatable = summary.allocatable;
          capacity = summary.capacity;
        })
            ∷ log,
      ))
      else return none

  pub handle : String → Exec (Call Q) (Option ℕ)
  handle target_name = do
    found ← lift r.cluster_summary
    let summary = supported found
    virtual_node ← lift (r.node_lister target_name)
    patched ←
        bring_labels target_name (reconcile_labels r.target r.excluded summary.labels) virtual_node
    bring_resources summary patched
