-- ===== src/Controller/Finalizers.antt =====
-- Finding a finalizer, and taking it out of the list as `append(f[:j], f[j+1:]...)`.
use admiralty.Base.{
  zero, arith, ℕ, suc, String, ◌≡◌, refl, ap, Bool, true, false, Option, none, some, List, [], ◌∷◌,
  remove_at, get_elem?, ◌==◌, eq_iff, if◌then◌else◌, any,
}
use admiralty.Controller.{has_finalizer}

-- The library's `erase`, run by `==`: the list without the first occurrence.
abbrev pub erase : String → List String → List String
erase f [] = []
erase f (x ∷ xs) = let rest = erase f xs in if x == f then xs else x ∷ rest

-- The index points at the finalizer, and taking that index out erases its first occurrence; where
-- there is no index, the finalizer is not in the list.
abbrev Points : String → List String → Option ℕ → Type 0
Points f xs none = any (λ x. x == f) xs ≡ false
Points f xs (some j) = (get_elem? xs j ≡ some f) × (remove_at j xs ≡ erase f xs)

next : Bool → Option ℕ → Option ℕ
next b o = if b then some 0 else elim o [ none ↦ none | some i ↦ some (suc i) ]

Points-cons :
    (f x : String) (xs : List String) (b : Bool)
    → (x == f) ≡ b
    → (o : Option ℕ) → Points f xs o
    → Points f (x ∷ xs) (next b o)
unfolding next
Points-cons f x xs true e none p = (cc ((eq_iff x f).0 e), rw e)
Points-cons f x xs true e (some i) p = (cc ((eq_iff x f).0 e), rw e)
Points-cons f x xs false e none p = rw e p
Points-cons f x xs false e (some i) p = (p.0, rw e (ap (λ t. x ∷ t) p.1))

has_finalizer_lem : (f : String) (xs : List String) → Points f xs (has_finalizer xs f)
unfolding has_finalizer next
has_finalizer_lem f [] = refl
has_finalizer_lem f (x ∷ xs) =
    Points-cons f x xs (x == f) refl (has_finalizer xs f) (has_finalizer_lem f xs)

-- A finalizer that is in the list has an index, and taking that index out erases the finalizer's
-- first occurrence and nothing else.
pub has_finalizer_found :
    (f : String) (xs : List String)
    → any (λ x. x == f) xs ≡ true
    → (j : ℕ) × (has_finalizer xs f ≡ some j)
      × (get_elem? xs j ≡ some f)
      × (remove_at j xs ≡ erase f xs)
has_finalizer_found f xs held = go (has_finalizer xs f) refl (has_finalizer_lem f xs)
  where
    go :
        (o : Option ℕ)
        → has_finalizer xs f ≡ o
        → Points f xs o
        → (j : ℕ) × (has_finalizer xs f ≡ some j)
          × (get_elem? xs j ≡ some f)
          × (remove_at j xs ≡ erase f xs)
    go none e p = cc
    go (some j) e p = (j, e, p.0, p.1)

-- A finalizer that is not in the list has no index.
has_finalizer_absent :
    (f : String) (xs : List String) → any (λ x. x == f) xs ≡ false → has_finalizer xs f ≡ none
has_finalizer_absent f xs absent = go (has_finalizer xs f) refl (has_finalizer_lem f xs)
  where
    held : (xs : List String) (j : ℕ) → get_elem? xs j ≡ some f → any (λ x. x == f) xs ≡ true
    held [] j e = cc
    held (x ∷ xs) zero e = ground (arith, eq_iff x f)
    held (x ∷ xs) (suc j) e = ground (arith, held xs j)

    go : (o : Option ℕ) → has_finalizer xs f ≡ o → Points f xs o → has_finalizer xs f ≡ none
    go none e p = e
    go (some j) e p = cc (held xs j p.0)
