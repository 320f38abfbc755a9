-- ===== src/DelegatePod/Labels.antt =====
-- `ChangeLabels` puts every label, or all but those of the user's expression, under this program's
-- prefix; and says that it changed something whenever there is such a label.
use Prim.Native.Char.{code}
use text.Mathlib.TextPositions.{starts_with-append}
use admiralty.Base.{
  ◌<>◌, String, ◌≡◌, refl, ap, Bool, true, false, ◌||◌, [], ◌∷◌, Map, insert, All, eqb, eq_iff,
  arith, Result, ok, err, wrap, ok_inj, Bool-cases, inl, inr,
}
use admiralty.Common.{key_prefix, is_ours}
use admiralty.DelegatePod.{
  change_labels, slash, split_slash, last_segment, changes_key, change_loop,
}

has_slash : String → Bool
has_slash String.[] = false
has_slash (String.◌∷◌ c s) = eqb (code c) slash || has_slash s

-- The first segment of a split holds no slash.
first_segment-plain : (s : String) → has_slash (split_slash s).0 ≡ false
unfolding has_slash split_slash
first_segment-plain String.[] = refl
first_segment-plain (String.◌∷◌ c s) = elim (Bool-cases (eqb (code c) slash)) [
  | inl e ↦ rw e refl
  | inr e ↦ rw (e, e) (first_segment-plain s)
]

prefix_has_slash : has_slash key_prefix ≡ true
unfolding has_slash
prefix_has_slash = refl

-- The test in `ChangeLabels` for a key that has this program's domain already never holds: a
-- segment has no slash, and the prefix that it is compared with ends with one.
changes_key-true : (k : String) → changes_key k ≡ true
unfolding changes_key
changes_key-true k = ground (
  arith,
  eq_iff (split_slash k).0 key_prefix,
  first_segment-plain k,
  prefix_has_slash,
  λ (e : (split_slash k).0 ≡ key_prefix). ap has_slash e,
)

-- Where the user keeps no label as it is, every key of the new labels has this program's
-- prefix.
pub change_loop-IsOurs :
    (labels : Map String) → All (λ e. is_ours e.0 ≡ true) (change_loop (λ k v. false) labels).0
unfolding change_loop insert is_ours
change_loop-IsOurs [] = tt
change_loop-IsOurs ((k, v) ∷ labels) =
    rw (changes_key-true k)
      (starts_with-append key_prefix (last_segment k), change_loop-IsOurs labels)

-- `changed` is reported for every map that has a label.
pub change_loop-changed :
    (k v : String) (labels : Map String) → (change_loop (λ k v. false) ((k, v) ∷ labels)).1 ≡ true
unfolding change_loop
change_loop-changed k v labels = rw (changes_key-true k)

-- A map that has a label keeps one.
pub change_loop-cons :
    (k v : String) (labels : Map String)
    → (e : String × String) × (rest : Map String) × ((change_loop
          (λ k v. false)
          ((k, v) ∷ labels)).0
        ≡ e ∷ rest)
unfolding change_loop insert
change_loop-cons k v labels = (
  (key_prefix <> last_segment k, v),
  (change_loop (λ k v. false) labels).0,
  rw (changes_key-true k) refl,
)

-- With no expression of the user's, `ChangeLabels` is its loop, and keeps no label as it is.
pub change_labels-all :
    (compile : String → Result (String → Bool)) (labels : Map String) (q : Map String × Bool)
    → change_labels compile labels "" ≡ ok q
    → change_loop (λ k v. false) labels ≡ q
unfolding change_labels
change_labels-all compile labels q done = by_case (compile "") done
  where
    by_case :
        (compiled : Result (String → Bool))
        → elim compiled [
          | err e ↦ err (wrap "failed to complie regexp : " e)
          | ok matches ↦ ok (change_loop (λ k v. false) labels)
        ]
          ≡ ok q
        → change_loop (λ k v. false) labels ≡ q
    by_case (ok matches) done = ok_inj done
    by_case (err e) done = cc
