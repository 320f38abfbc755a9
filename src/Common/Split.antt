-- ===== src/Common/Split.antt =====
-- What the split holds, key by key.
use admiralty.Base.{String, ◌≡◌, none, [], ◌∷◌, Map, lookup, insert, eq_iff, arith, if◌then◌else◌}
use admiralty.Common.{is_ours, split_labels_or_annotations}

-- A key is looked up in the part that its prefix puts it in, and is missing from the other part.
pub lookup-split :
    (k : String) (m : Map String)
    → let (mc, other) = split_labels_or_annotations m in
      (lookup k mc ≡ (if is_ours k then lookup k m else none))
      × (lookup k other ≡ (if is_ours k then none else lookup k m))
unfolding split_labels_or_annotations lookup insert
lookup-split k [] = ground arith
lookup-split k ((j, v) ∷ m) = ground (arith, lookup-split k m, eq_iff j k, same_side j k)
  where
    same_side : (j k : String) → j ≡ k → is_ours j ≡ is_ours k
    same_side j k e = cc
