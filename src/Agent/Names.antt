-- ===== src/Agent/Names.antt =====
-- The names that `complete` gives to a target's virtual node and to its finalizer.
use admiralty.Base.{◌≤◌, ◌≡◌, refl, sym, ◌∙◌, false, some, some_inj, [], ◌∷◌, ◌++◌, length, arith}
use admiralty.Name.{Bytes, short, dash, is_empty, from_parts, hash_required, non_empty, join}
use admiralty.Name.Join.{Lacks, split_at_separator, separator_inside}
use admiralty.Name.Unique.{has_dash-false}
use admiralty.Agent.{finalizer_name}

abbrev pub joined : Bytes → Bytes → Bytes
joined [] name = name
joined (c ∷ namespace) name = (c ∷ namespace) ++ dash ∷ name

module _ (digest : Bytes → Bytes) where
  finalizer_name-plain :
      (namespace name : Bytes)
      → Lacks dash namespace
      → Lacks dash name
      → is_empty name ≡ false
      → length (joined namespace name) ≤ short
      → finalizer_name digest namespace name ≡ some (joined namespace name)
  unfolding finalizer_name from_parts hash_required non_empty join
  finalizer_name-plain [] (d ∷ name) hn hm full fits =
      rw (has_dash-false (d ∷ name) hm) (ground arith)
  finalizer_name-plain (c ∷ namespace) (d ∷ name) hn hm full fits =
      rw (has_dash-false (c ∷ namespace) hn, has_dash-false (d ∷ name) hm) (ground arith)
  finalizer_name-plain namespace [] hn hm full fits = ground arith

joined-injective :
    (ns name ns' name' : Bytes)
    → Lacks dash ns
    → Lacks dash ns'
    → Lacks dash name
    → Lacks dash name'
    → joined ns name ≡ joined ns' name'
    → (ns ≡ ns') × (name ≡ name')
joined-injective [] name [] name' hn hn' hm hm' e = (refl, e)
joined-injective [] name (c ∷ ns') name' hn hn' hm hm' e =
    absurd (separator_inside dash name (c ∷ ns') name' hm e)
joined-injective (c ∷ ns) name [] name' hn hn' hm hm' e =
    absurd (separator_inside dash name' (c ∷ ns) name hm' (sym e))
joined-injective (c ∷ ns) name (d ∷ ns') name' hn hn' hm hm' e =
    split_at_separator dash (c ∷ ns) (d ∷ ns') name name' hn hn' e

-- Two targets, with a namespace or, if they are cluster targets, with none, whose namespaces and names
-- hold no dash and together fit 63 bytes, have different finalizers if they differ.
pub finalizer_name-injective :
    (digest : Bytes → Bytes) (ns name ns' name' : Bytes)
    → Lacks dash ns
    → Lacks dash ns'
    → Lacks dash name
    → Lacks dash name'
    → is_empty name ≡ false
    → is_empty name' ≡ false
    → length (joined ns name) ≤ short
    → length (joined ns' name') ≤ short
    → finalizer_name digest ns name ≡ finalizer_name digest ns' name'
    → (ns ≡ ns') × (name ≡ name')
finalizer_name-injective digest ns name ns' name' hn hn' hm hm' full full' fits fits' e =
    joined-injective ns name ns' name' hn hn' hm hm' (
      some_inj (
        sym (finalizer_name-plain digest ns name hn hm full fits)
        ∙ e
        ∙ finalizer_name-plain digest ns' name' hn' hm' full' fits'))
