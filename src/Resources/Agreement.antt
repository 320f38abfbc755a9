-- ===== src/Resources/Agreement.antt =====
-- The labels that the loops keep.
use admiralty.Base.{
  String, ◌≡◌, refl, ◌∙◌, Bool, true, false, ◌&&◌, Option, none, some, List, [], ◌∷◌, Map, lookup,
  insert, lookup-delete, ◌==◌, eq_iff, arith, if◌then◌else◌,
}
use admiralty.Resources.{is_multiple, merge_label, merge_labels}
use admiralty.Resources.Sums.{values}

abbrev all_are : String → List String → Bool
all_are v [] = true
all_are v (w ∷ ws) = (v == w) && all_are v ws

-- The value that all have, if there is one.
abbrev pub consensus : List String → Option String
consensus [] = none
consensus (v ∷ vs) = if all_are v vs then some v else none

-- What the rest of a key's values makes of its state so far.
pub decided : Option String → Bool → List String → Option String
decided none true vs = none
decided none false vs = consensus vs
decided (some c) seen vs = if all_are c vs then some c else none

decided-merge_label :
    (k j v : String) (s : Map String × Map Bool) (rest : List String)
    → let s' = merge_label j v (lookup j s.0) (is_multiple s.1 j) s in
      decided (lookup k s'.0) (is_multiple s'.1 k) rest
      ≡ decided (lookup k s.0) (is_multiple s.1 k) (if j == k then v ∷ rest else rest)
unfolding decided lookup insert
decided-merge_label k j v (l, multiple) rest =
    ground (arith, eq_iff j k, same j k, lookup-delete j k l)
  where
    same :
        (j k : String) → j ≡ k → (lookup j l ≡ lookup k l) × (lookup j multiple ≡ lookup k multiple)
    same j k e = (cc, cc)

decided-nil : (o : Option String) (seen : Bool) → o ≡ decided o seen []
unfolding decided
decided-nil none true = refl
decided-nil none false = refl
decided-nil (some c) seen = refl

decided-merge_labels :
    (k : String) (s : Map String × Map Bool) (m : Map String)
    → lookup k (merge_labels s m).0 ≡ decided (lookup k s.0) (is_multiple s.1 k) (values k m)
unfolding merge_labels
decided-merge_labels k s [] = decided-nil (lookup k s.0) (is_multiple s.1 k)
decided-merge_labels k s ((j, v) ∷ more) =
    decided-merge_labels k (merge_label j v (lookup j s.0) (is_multiple s.1 j) s) more
    ∙ decided-merge_label k j v s (values k more)

-- A label is kept if it has a value and no two, and with that value.
pub lookup-merge_labels :
    (k : String) (m : Map String) → lookup k (merge_labels ([], []) m).0 ≡ consensus (values k m)
unfolding decided lookup
lookup-merge_labels k m = decided-merge_labels k ([], []) m
