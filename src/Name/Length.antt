-- ===== src/Name/Length.antt =====
-- How long the names are, and that no slice is out of range.
use mathlib.Core.Bool.{false≢true}
use admiralty.Base.{
  ℕ, zero, suc, ◌+◌, ◌-◌, ◌≤◌, ◌<◌, ◌≡◌, ◌≢◌, refl, sym, ap, inl, inr, Bool, true, false, Option,
  none, some, List, [], ◌∷◌, ◌++◌, length, take, length-append, length-take-le, ltb, arith,
  Bool-cases, All, if◌then◌else◌,
}
use admiralty.Name.{
  Bytes, dash, slash, is_empty, join, non_empty, last_is_dash, drop_last, trim_dashes, truncate,
  hash_length, with_hash, append_hash, from_parts,
}

length-drop_last : (c : ℕ) (s : Bytes) → length (drop_last (c ∷ s)) ≡ length s
unfolding drop_last
length-drop_last c [] = refl
length-drop_last c (d ∷ s) = ap suc (length-drop_last d s)

trim_dashes-length :
    (fuel : ℕ) (s t : Bytes)
    → trim_dashes fuel s ≡ some t
    → (length t ≤ length s) × (last_is_dash t ≡ false)
unfolding trim_dashes
trim_dashes-length fuel [] t h = cc
trim_dashes-length zero (c ∷ s) t h = cc
trim_dashes-length (suc fuel) (c ∷ s) t h =
    ground (arith, trim_dashes-length fuel (drop_last (c ∷ s)) t, length-drop_last c s)

truncate_bound : (limit : ℕ) (s t : Bytes) → truncate limit s ≡ some t → length t ≤ limit
unfolding truncate
truncate_bound limit s t h =
    ground (arith, trim_dashes-length (length s) (take limit s) t, length-take-le limit s)

-- A text is plain if it is empty or begins with another byte than a dash.
abbrev IsPlain : Bytes → Type 0
IsPlain [] = Unit
IsPlain (c ∷ s) = c ≢ dash

drop_last_plain :
    (c : ℕ) (s : Bytes)
    → last_is_dash (c ∷ s) ≡ true
    → c ≢ dash
    → (r : Bytes) × (drop_last (c ∷ s) ≡ c ∷ r)
unfolding drop_last last_is_dash
drop_last_plain c [] h n = ground arith
drop_last_plain c (d ∷ s) h n = (drop_last (d ∷ s), refl)

abbrev Returns : Option Bytes → Type 0
Returns r = (t : Bytes) × (r ≡ some t)

trim_dashes_total :
    (fuel c : ℕ) (s : Bytes) → length s < fuel → c ≢ dash → Returns (trim_dashes fuel (c ∷ s))
unfolding trim_dashes
trim_dashes_total zero c s h n = elim h [ ]
trim_dashes_total (suc fuel) c s h n = elim (Bool-cases (last_is_dash (c ∷ s))) [
  | inr done ↦ (c ∷ s, rw done)
  | inl more ↦
      let (r, e) = drop_last_plain c s more n in
      rw (more, e) (trim_dashes_total fuel c r (omega (arith, ap length e, length-drop_last c s)) n)
]

take_plain : (n c : ℕ) (s : Bytes) → take (suc n) (c ∷ s) ≡ c ∷ take n s
take_plain n c s = refl

truncate_total : (limit : ℕ) (s : Bytes) → IsPlain s → Returns (truncate (suc limit) s)
unfolding truncate
truncate_total limit [] p = ([], ground arith)
truncate_total limit (c ∷ s) p = elim (Bool-cases (ltb (suc limit) (length (c ∷ s)))) [
  | inr fits ↦ (c ∷ s, rw fits)
  | inl over ↦ rw over (
      trim_dashes_total (length (c ∷ s)) c (take limit s) (ground (arith, length-take-le limit s))
        p)
]

non_empty-IsPlain :
    (ps : List Bytes) → All IsPlain ps → All (λ p. IsPlain p × (is_empty p ≡ false)) (non_empty ps)
unfolding non_empty
non_empty-IsPlain [] h = tt
non_empty-IsPlain ([] ∷ ps) h = non_empty-IsPlain ps h.1
non_empty-IsPlain ((c ∷ p) ∷ ps) h = ((h.0, refl), non_empty-IsPlain ps h.1)

join-IsPlain :
    (ps : List Bytes)
    → All (λ p. IsPlain p × (is_empty p ≡ false)) ps
    → IsPlain (join (dash ∷ []) ps)
unfolding join
join-IsPlain [] h = tt
join-IsPlain (p ∷ []) h = h.0.0
join-IsPlain ([] ∷ q ∷ ps) h = absurd (false≢true (sym h.0.1))
join-IsPlain ((c ∷ p) ∷ q ∷ ps) h = h.0.0

if_Returns : (b : Bool) (x y : Option Bytes) → Returns x → Returns y → Returns (if b then x else y)
if_Returns true x y rx ry = rx
if_Returns false x y rx ry = ry

ltb-false : (a b : ℕ) → ltb a b ≡ false → b ≤ a
ltb-false a b h = ground arith

module _ (digest : Bytes → Bytes) where
  -- What a hashed name is made of.
  with_hash_parts :
      (key : Bytes) (o : Option Bytes) (t : Bytes)
      → with_hash digest key o ≡ some t
      → (p : Bytes) × (o ≡ some p) × (t ≡ p ++ dash ∷ take hash_length (digest key))
  with_hash_parts key none t h = cc
  with_hash_parts key (some p) t h = (p, refl, cc)

  -- A hashed name is the truncated text, a dash, and the first bytes of the digest.
  pub append_hash_parts :
      (limit : ℕ) (key s t : Bytes)
      → append_hash digest limit key s ≡ some t
      → (p : Bytes) × (truncate (limit - (hash_length + 1)) s ≡ some p)
        × (t ≡ p ++ dash ∷ take hash_length (digest key))
        × (hash_length + 1 ≤ limit)
  unfolding append_hash
  append_hash_parts limit key s t h = elim (Bool-cases (ltb limit (hash_length + 1))) [
    | inl low ↦ cc (rw low at h)
    | inr room ↦
        let (p, e, q) =
          with_hash_parts key (truncate (limit - (hash_length + 1)) s) t (rw room at h) in
        (p, e, q, ltb-false limit (hash_length + 1) room)
  ]

  append_hash_bound :
      (limit : ℕ) (key s t : Bytes) → append_hash digest limit key s ≡ some t → length t ≤ limit
  append_hash_bound limit key s t h =
      let (p, e, q, room) = append_hash_parts limit key s t h in
      omega (
        arith,
        ap length q,
        length-append p (dash ∷ take hash_length (digest key)),
        length-take-le hash_length (digest key),
        truncate_bound (limit - (hash_length + 1)) s p e,
      )

  -- Whatever the parts and the digest, a name that `FromParts` gives has at most `limit` bytes.
  pub length-from_parts :
      (limit : ℕ) (constants optionals : List ℕ) (parts : List Bytes) (t : Bytes)
      → from_parts digest limit constants optionals parts ≡ some t
      → length t ≤ limit
  unfolding from_parts
  length-from_parts limit constants optionals parts t h = ground (
    arith,
    append_hash_bound limit (join (slash ∷ []) parts) (join (dash ∷ []) (non_empty parts)) t,
  )

  append_hash_total :
      (k : ℕ) (key s : Bytes) → IsPlain s → Returns (append_hash digest (k + 12) key s)
  unfolding append_hash
  append_hash_total k key s plain =
      let (p, e) = truncate_total k s plain in
      let room : ltb (k + 12) 11 ≡ false = ground arith in
      let rest : k + 12 - 11 ≡ suc k = omega arith in
      (p ++ dash ∷ take hash_length (digest key), rw (room, rest, e))

  -- With a limit of 12 bytes or more, and parts that begin with no dash, no slice is out of range:
  -- there is a name, it is as short as the limit asks, and nothing panics.
  pub from_parts_total :
      (k : ℕ) (constants optionals : List ℕ) (parts : List Bytes)
      → All IsPlain parts
      → (t : Bytes) × (from_parts digest (k + 12) constants optionals parts ≡ some t)
        × (length t ≤ k + 12)
  from_parts_total k constants optionals parts plain =
      let (t, e) = returns in (t, e, length-from_parts (k + 12) constants optionals parts t e)
    where
      s : Bytes
      s = join (dash ∷ []) (non_empty parts)

      hashed : Returns (append_hash digest (k + 12) (join (slash ∷ []) parts) s)
      hashed =
          append_hash_total k (join (slash ∷ []) parts) s
            (join-IsPlain (non_empty parts) (non_empty-IsPlain parts plain))

      returns : Returns (from_parts digest (k + 12) constants optionals parts)
      returns = unfold from_parts in if_Returns _ (some s) _ (s, refl) hashed
