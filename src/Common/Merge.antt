-- ===== src/Common/Merge.antt =====
-- Bringing annotations from a giver to a receiver settles in one step.
use admiralty.Base.{
  String, ◌≡◌, ◌↔◌, false, not, Map, lookup, lookup-copy_into, deep_equal, deep_equal_iff, text_eq,
  arith, if◌then◌else◌,
}
use admiralty.Common.{is_ours, split_labels_or_annotations, merged_annotations, need_update}
use admiralty.Common.Split.{lookup-split}

-- In the merged annotations a key with this program's prefix has the receiver's value, and any
-- other key has the giver's.
pub lookup-merged_annotations :
    (k : String) (receiver giver : Map String)
    → lookup k (merged_annotations receiver giver)
      ≡ (if is_ours k then lookup k receiver else lookup k giver)
unfolding merged_annotations
lookup-merged_annotations k receiver giver =
    rw lookup-copy_into (rw ((lookup-split k receiver).0, (lookup-split k giver).1) (ground arith))

-- An update is due exactly if the two differ at a key without this program's prefix.
pub need_update_iff :
    (receiver giver : Map String)
    → (need_update receiver giver ≡ false)
      ↔ ((k : String) → is_ours k ≡ false → lookup k receiver ≡ lookup k giver)
unfolding need_update
need_update_iff receiver giver = (sound, complete)
  where
    left : Map String
    left = (split_labels_or_annotations receiver).1

    right : Map String
    right = (split_labels_or_annotations giver).1

    sound :
        not (deep_equal text_eq left right) ≡ false
        → (k : String) → is_ours k ≡ false
        → lookup k receiver ≡ lookup k giver
    sound h k other = ground (
      arith,
      (deep_equal_iff text_eq left right).0 (ground arith) k,
      lookup-split k receiver,
      lookup-split k giver,
    )

    complete :
        ((k : String) → is_ours k ≡ false → lookup k receiver ≡ lookup k giver)
        → not (deep_equal text_eq left right) ≡ false
    complete same = rw (
        (deep_equal_iff text_eq left right).1
          λ k. ground (arith, same k, lookup-split k receiver, lookup-split k giver))

-- Once the receiver has the merged annotations, no update is due.
need_update-merged :
    (receiver giver : Map String) → need_update (merged_annotations receiver giver) giver ≡ false
need_update-merged receiver giver =
    (need_update_iff (merged_annotations receiver giver) giver).1
      λ k other. rw lookup-merged_annotations (rw other)
