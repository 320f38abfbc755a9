-- ===== src/Name/Unique.antt =====
-- Different parts get different names.
use admiralty.Base.{
  ℕ, ◌+◌, ◌≤◌, ◌≡◌, refl, sym, ◌∙◌, true, false, some, List, [], ◌∷◌, ◌++◌, length, take, arith,
  All,
}
use admiralty.Name.{
  Bytes, dash, slash, has_dash, is_empty, join, non_empty, hash_required, hash_length, append_hash,
  from_parts,
}
use admiralty.Name.Length.{append_hash_parts}
use admiralty.Name.Join.{Lacks, join-injective, append_right_inj}

module _ (digest : Bytes → Bytes) where
  hashed :
      (limit : ℕ) (constants optionals : List ℕ) (parts : List Bytes)
      → hash_required (length parts) constants optionals 0 parts ≡ true
      → from_parts digest limit constants optionals parts
        ≡ append_hash digest limit (join (slash ∷ []) parts) (join (dash ∷ []) (non_empty parts))
  unfolding from_parts
  hashed limit constants optionals parts h = rw h

  -- The part of a digest that goes into a name, of at least ten bytes.
  abbrev tag : Bytes → Bytes
  tag key = take hash_length (digest key)

  -- Equally many parts without slashes, where both names need a hash: if the names are equal,
  -- so are the parts. What is kept of the two keys' digests is assumed to have one length and
  -- to differ if the keys do.
  pub from_parts-injective_hashed :
      (limit : ℕ) (constants optionals : List ℕ) (ps qs : List Bytes) (t : Bytes)
      → All (Lacks slash) ps
      → All (Lacks slash) qs
      → length ps ≡ length qs
      → length (tag (join (slash ∷ []) ps)) ≡ length (tag (join (slash ∷ []) qs))
      → (tag (join (slash ∷ []) ps) ≡ tag (join (slash ∷ []) qs)
          → join (slash ∷ []) ps ≡ join (slash ∷ []) qs)
      → hash_required (length ps) constants optionals 0 ps ≡ true
      → hash_required (length qs) constants optionals 0 qs ≡ true
      → from_parts digest limit constants optionals ps ≡ some t
      → from_parts digest limit constants optionals qs ≡ some t
      → ps ≡ qs
  from_parts-injective_hashed limit constants optionals ps qs t hp hq n same_length no_collision rp
        rq ep eq =
      let (p, _, ip, _) =
        append_hash_parts digest limit (join (slash ∷ []) ps) (join (dash ∷ []) (non_empty ps)) t
          (sym (hashed limit constants optionals ps rp) ∙ ep) in
      let (q, _, iq, _) =
        append_hash_parts digest limit (join (slash ∷ []) qs) (join (dash ∷ []) (non_empty qs)) t
          (sym (hashed limit constants optionals qs rq) ∙ eq) in
      join-injective slash ps qs hp hq n (
        no_collision (
          tag_of p q (tag (join (slash ∷ []) ps)) (tag (join (slash ∷ []) qs)) (sym ip ∙ iq)
            same_length))
    where
      tag_of : (p q x y : Bytes) → p ++ dash ∷ x ≡ q ++ dash ∷ y → length x ≡ length y → x ≡ y
      tag_of p q x y e n =
          let same = append_right_inj p q (dash ∷ x) (dash ∷ y) e (omega arith) in cc

non_empty-All : (ps : List Bytes) → All (λ p. is_empty p ≡ false) ps → non_empty ps ≡ ps
unfolding non_empty
non_empty-All [] h = refl
non_empty-All (p ∷ ps) h = ground (arith, non_empty-All ps h.1)

pub has_dash-false : (p : Bytes) → Lacks dash p → has_dash p ≡ false
has_dash-false [] h = refl
has_dash-false (c ∷ p) h = ground (arith, has_dash-false p h.1)

hash_required-false :
    (count : ℕ) (constants optionals : List ℕ) (i : ℕ) (ps : List Bytes)
    → All (λ p. is_empty p ≡ false) ps
    → All (Lacks dash) ps
    → hash_required count constants optionals i ps ≡ false
unfolding hash_required
hash_required-false count constants optionals i [] full h = refl
hash_required-false count constants optionals i (p ∷ ps) full h =
    rw (full.0, has_dash-false p h.0)
      (hash_required-false count constants optionals (i + 1) ps full.1 h.1)

module _ (digest : Bytes → Bytes) (limit : ℕ) (constants optionals : List ℕ) where
  -- Parts that are not empty, hold no dash and fit the limit are only joined.
  from_parts-eq-join :
      (ps : List Bytes)
      → All (λ p. is_empty p ≡ false) ps
      → All (Lacks dash) ps
      → length (join (dash ∷ []) ps) ≤ limit
      → from_parts digest limit constants optionals ps ≡ some (join (dash ∷ []) ps)
  unfolding from_parts
  from_parts-eq-join ps full h fits =
      rw (non_empty-All ps full, hash_required-false (length ps) constants optionals 0 ps full h)
        (ground arith)

  -- Two lists of equally many parts, none of them empty and none with a dash, which fit the
  -- limit when joined, have different names if they differ.
  from_parts-injective_plain :
      (ps qs : List Bytes)
      → All (λ p. is_empty p ≡ false) ps
      → All (λ p. is_empty p ≡ false) qs
      → All (Lacks dash) ps
      → All (Lacks dash) qs
      → length ps ≡ length qs
      → length (join (dash ∷ []) ps) ≤ limit
      → length (join (dash ∷ []) qs) ≤ limit
      → from_parts digest limit constants optionals ps
        ≡ from_parts digest limit constants optionals qs
      → ps ≡ qs
  from_parts-injective_plain ps qs fp fq hp hq n lp lq e =
      join-injective dash ps qs hp hq n
        (cc (e, from_parts-eq-join ps fp hp lp, from_parts-eq-join qs fq hq lq))
