-- ===== src/Name/Examples.antt =====
-- The cases of pkg/name/name_test.go with a digest that stands in for SHA-256, and the theorems
-- on concrete parts.
use admiralty.Base.{◌+◌, ◌≤◌, ◌≡◌, refl, some, List, [], ◌∷◌, length, arith}
use admiralty.Name.{Bytes, codes, short, join, hash_required, from_parts}
use admiralty.Name.Length.{length-from_parts, from_parts_total}
use admiralty.Name.Unique.{from_parts-injective_hashed}

abbrev sample_digest : Bytes → Bytes
sample_digest s = codes "0123456789abcdef"

no_hyphen :
    from_parts sample_digest short [] [] (codes "default" ∷ codes "foo" ∷ [])
    ≡ some (codes "default-foo")
unfolding from_parts
no_hyphen = refl

with_hyphen :
    from_parts sample_digest short [] [] (codes "default" ∷ codes "foo-bar" ∷ [])
    ≡ some (codes "default-foo-bar-0123456789")
unfolding from_parts
with_hyphen = refl

remove_trailing_hyphen :
    from_parts sample_digest short [] [] (
      codes "verylongnamespaceverylongnamespace"
      ∷ codes "verylongnamevery-longnameverylongname"
      ∷ [])
    ≡ some (codes "verylongnamespaceverylongnamespace-verylongnamevery-0123456789")
unfolding from_parts
remove_trailing_hyphen = refl

single_variable_part :
    from_parts sample_digest short (0 ∷ []) [] (codes "prefix" ∷ codes "foo-bar" ∷ [])
    ≡ some (codes "prefix-foo-bar")
unfolding from_parts
single_variable_part = refl

multiple_optional_parts :
    from_parts sample_digest short [] (0 ∷ 1 ∷ []) ([] ∷ codes "foo" ∷ [])
    ≡ some (codes "foo-0123456789")
unfolding from_parts
multiple_optional_parts = refl

abbrev hyphenated : List Bytes
hyphenated = codes "default" ∷ codes "foo-bar" ∷ []

length-from_parts_example : length (codes "default-foo-bar-0123456789") ≤ short
length-from_parts_example =
    length-from_parts sample_digest short [] [] hyphenated (codes "default-foo-bar-0123456789")
      with_hyphen

from_parts_total_example :
    (t : Bytes) × (from_parts sample_digest (51 + 12) [] [] hyphenated ≡ some t)
    × (length t ≤ 51 + 12)
from_parts_total_example = from_parts_total sample_digest 51 [] [] hyphenated (omega arith)

from_parts-injective_hashed_example : hyphenated ≡ hyphenated
unfolding from_parts join hash_required
from_parts-injective_hashed_example =
    from_parts-injective_hashed sample_digest short [] [] hyphenated hyphenated
      (codes "default-foo-bar-0123456789") (omega arith) (omega arith) refl refl (λ e. refl) refl
      refl refl refl
