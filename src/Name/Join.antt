-- ===== src/Name/Join.antt =====
-- Joining parts that do not hold the separator loses nothing.
use admiralty.Base.{ℕ, ◌≡◌, ◌≢◌, refl, ap, List, [], ◌∷◌, ◌++◌, length, length-append, arith, All}
use admiralty.Name.{Bytes, join}

abbrev pub Lacks : ℕ → Bytes → Type 0
Lacks b = All (λ c. c ≢ b)

-- Two texts are equal if they agree up to the first separator and after it.
pub split_at_separator :
    (b : ℕ) (s t x y : Bytes) → Lacks b s → Lacks b t → s ++ b ∷ x ≡ t ++ b ∷ y → (s ≡ t) × (x ≡ y)
split_at_separator b [] [] x y hs ht e = (refl, cc)
split_at_separator b [] (d ∷ t) x y hs ht e = ground arith
split_at_separator b (c ∷ s) [] x y hs ht e = ground arith
split_at_separator b (c ∷ s) (d ∷ t) x y hs ht e =
    let (p, q) = split_at_separator b s t x y hs.1 ht.1 (cc) in (cc, q)

pub separator_inside : (b : ℕ) (s t x : Bytes) → Lacks b s → s ≢ t ++ b ∷ x
separator_inside b [] [] x h e = cc
separator_inside b [] (d ∷ t) x h e = cc
separator_inside b (c ∷ s) [] x h e = ground arith
separator_inside b (c ∷ s) (d ∷ t) x h e = separator_inside b s t x h.1 (cc)

-- As many parts, none with the separator in it: equal joins come from equal parts.
pub join-injective :
    (b : ℕ) (ps qs : List Bytes)
    → All (Lacks b) ps
    → All (Lacks b) qs
    → length ps ≡ length qs
    → join (b ∷ []) ps ≡ join (b ∷ []) qs
    → ps ≡ qs
unfolding join
join-injective b [] [] hp hq n e = refl
join-injective b [] (q ∷ qs) hp hq n e = absurd (omega arith)
join-injective b (p ∷ ps) [] hp hq n e = absurd (omega arith)
join-injective b (p ∷ []) (q ∷ []) hp hq n e = cc
join-injective b (p ∷ []) (q ∷ r ∷ qs) hp hq n e = absurd (omega arith)
join-injective b (p ∷ r ∷ ps) (q ∷ []) hp hq n e = absurd (omega arith)
join-injective b (p ∷ p' ∷ ps) (q ∷ q' ∷ qs) hp hq n e =
    let (x, y) =
      split_at_separator b p q (join (b ∷ []) (p' ∷ ps)) (join (b ∷ []) (q' ∷ qs)) hp.0 hq.0 e in
    cc (x, join-injective b (p' ∷ ps) (q' ∷ qs) hp.1 hq.1 (omega arith) y)

-- Two texts that end in equally long rests end alike.
pub append_right_inj : (s t x y : Bytes) → s ++ x ≡ t ++ y → length x ≡ length y → x ≡ y
append_right_inj [] [] x y e n = e
append_right_inj [] (d ∷ t) x y e n = absurd (omega (arith, ap length e, length-append t y))
append_right_inj (c ∷ s) [] x y e n = absurd (omega (arith, ap length e, length-append s x))
append_right_inj (c ∷ s) (d ∷ t) x y e n = append_right_inj s t x y (cc) n
