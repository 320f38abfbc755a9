-- ===== src/Common/Examples.antt =====
-- The split and the merge on small maps.
use admiralty.Base.{◌≡◌, refl, [], ◌∷◌, Map, String, insert, copy_into}
use admiralty.Common.{split_labels_or_annotations, merged_annotations}

abbrev receiver : Map String
receiver = ("multicluster.admiralty.io/elect", "") ∷ ("old", "1") ∷ []

abbrev giver : Map String
giver = ("multicluster.admiralty.io/is-reserved", "true") ∷ ("new", "2") ∷ []

merged :
    merged_annotations receiver giver ≡ ("new", "2") ∷ ("multicluster.admiralty.io/elect", "") ∷ []
unfolding merged_annotations split_labels_or_annotations insert copy_into
merged = refl
