-- ===== src/Resources/Examples.antt =====
-- Two nodes that agree on one label, with quantities that are numbers.
use admiralty.Base.{
  ℕ, ◌+◌, String, ◌≡◌, refl, none, some, List, [], ◌∷◌, lookup, insert, delete, ok, true,
}
use admiralty.Resources.{Node, ClusterSummary, Reconciler, summarize, add_resources, merge_labels}
use admiralty.Resources.Sums.{values, total}
use admiralty.Resources.Agreement.{consensus}
use admiralty.Resources.Summary.{entries, summarize_lem}

abbrev node : String → ℕ → Node ℕ
node zone cpus = record {
  labels = ("os", "linux") ∷ ("zone", zone) ∷ [];
  capacity = ("cpu", cpus) ∷ [];
  allocatable = ("cpu", 1) ∷ [];
}

abbrev nodes : List (Node ℕ)
nodes = node "a" 2 ∷ node "b" 3 ∷ node "b" 4 ∷ []

abbrev empty : ClusterSummary ℕ
empty = record { name = ""; labels = []; capacity = []; allocatable = [] }

abbrev reconciler : Reconciler ℕ
reconciler = record {
  plus = λ p q. p + q;
  server = λ log c. ok empty;
  node_lister = ok nodes;
  same_resources = λ p q. true;
  same_labels = λ p q. true;
}

abbrev gold : ClusterSummary ℕ
gold = summarize reconciler [] [] ([], []) nodes

adds : lookup "cpu" gold.capacity ≡ some 9
unfolding summarize add_resources lookup insert
adds = refl

agrees : lookup "os" gold.labels ≡ some "linux"
unfolding summarize merge_labels lookup insert delete
agrees = refl

differs : lookup "zone" gold.labels ≡ none
unfolding summarize merge_labels lookup insert delete
differs = refl

summarize_lem_example :
    (lookup "cpu" gold.capacity
      ≡ total reconciler.plus none (values "cpu" (entries (λ n. n.capacity) nodes)))
    × (lookup "cpu" gold.allocatable
        ≡ total reconciler.plus none (values "cpu" (entries (λ n. n.allocatable) nodes)))
    × (lookup "cpu" gold.labels ≡ consensus (values "cpu" (entries (λ n. n.labels) nodes)))
summarize_lem_example = summarize_lem reconciler nodes "cpu"
