-- ===== src/Base/Maps.antt =====
-- Go's maps with text keys, as association lists in which the first entry of a key counts.
-- Go iterates in no fixed order: a loop over a map is a recursion on the list.
use Prim.Native.String.{String}
use mathlib.Core.Path.{◌≡◌, refl}
use mathlib.Core.Logic.{◌↔◌, ◌⊎◌, inl}
use mathlib.Core.Bool.{Bool, true, false, ◌&&◌}
use mathlib.Core.Option.{Option, none, some}
use mathlib.Core.List.{List, [], ◌∷◌}
use native.Mathlib.Omega.{arith}
use text.Mathlib.Text.{◌==◌}
use text.Mathlib.TextEquality.{eq_iff}
use admiralty.Base.Tests.{if◌then◌else◌, is_some}

abbrev pub Map {ℓ} : Type ℓ → Type ℓ
Map V = List (String × V)

-- `reflect.DeepEqual` and the like on a type: a test with what it decides.
pub record Eq {ℓ} (A : Type ℓ) : Type ℓ where
  pub same : A → A → Bool
  pub same_iff : (a b : A) → (same a b ≡ true) ↔ (a ≡ b)

abbrev pub text_eq : Eq String
text_eq = record { same = ◌==◌; same_iff = eq_iff }

abbrev pub or_else {ℓ} : {A : Type ℓ} → Option A → Option A → Option A
or_else none b = b
or_else (some a) b = some a

module _ {ℓ} {V : Type ℓ} where
  -- v, ok := m[k]
  unfoldable pub lookup : String → Map V → Option V
  lookup k [] = none
  lookup k ((j, v) ∷ m) = if j == k then some v else lookup k m

  -- _, ok := m[k]
  abbrev pub has_key : String → Map V → Bool
  has_key k m = is_some (lookup k m)

  -- m[k] = v
  unfoldable pub insert : String → V → Map V → Map V
  insert k v m = (k, v) ∷ m

  -- delete(m, k)
  unfoldable pub delete : String → Map V → Map V
  delete k [] = []
  delete k ((j, v) ∷ m) = let rest = delete k m in if j == k then rest else (j, v) ∷ rest

  -- for k, v := range src { dst[k] = v }
  unfoldable pub copy_into : Map V → Map V → Map V
  unfolding insert
  copy_into dst [] = dst
  copy_into dst ((k, v) ∷ src) = insert k v (copy_into dst src)

  pub lookup-insert :
      (k j : String) (v : V) (m : Map V)
      → lookup j (insert k v m) ≡ (if k == j then some v else lookup j m)
  unfolding lookup insert
  lookup-insert k j v m = refl

  pub lookup-delete :
      (k j : String) (m : Map V) → lookup j (delete k m) ≡ (if k == j then none else lookup j m)
  unfolding lookup delete
  lookup-delete k j [] = ground arith
  lookup-delete k j ((i, w) ∷ m) =
      ground (arith, eq_iff k j, eq_iff i k, eq_iff i j, lookup-delete k j m)

  pub lookup-copy_into :
      (j : String) (dst src : Map V)
      → lookup j (copy_into dst src) ≡ or_else (lookup j src) (lookup j dst)
  unfolding lookup copy_into insert
  lookup-copy_into j dst [] = refl
  lookup-copy_into j dst ((i, w) ∷ src) = ground (arith, lookup-copy_into j dst src)

pub ruleset map_laws = (lookup-insert, lookup-delete, lookup-copy_into)

-- Whether a map that was read is nil: empty maps are not written.
abbrev pub is_nil {ℓ} : {V : Type ℓ} → Map V → Bool
is_nil [] = true
is_nil (e ∷ m) = false

-- m[k] for a map of texts: the empty text where the key is missing
abbrev pub get : String → Map String → String
get k m = elim (lookup k m) [ none ↦ "" | some v ↦ v ]

-- Every entry of `m` is an entry of `n`.
module _ {ℓ} {V : Type ℓ} (e : Eq V) where
  abbrev same_value : Option V → Option V → Bool
  same_value none none = true
  same_value none (some b) = false
  same_value (some a) none = false
  same_value (some a) (some b) = e.same a b

  abbrev agree_at : Map V → Map V → Map V → Bool
  agree_at m n [] = true
  agree_at m n ((k, v) ∷ ks) = same_value (lookup k m) (lookup k n) && agree_at m n ks

  -- reflect.DeepEqual on two maps: the same keys, with the same values
  unfoldable pub deep_equal : Map V → Map V → Bool
  deep_equal m n = agree_at m n m && agree_at m n n

  same_value_iff : (a b : Option V) → (same_value a b ≡ true) ↔ (a ≡ b)
  same_value_iff none none = ground arith
  same_value_iff none (some b) = ground arith
  same_value_iff (some a) none = ground arith
  same_value_iff (some a) (some b) = ground (arith, e.same_iff a b)

  agree_at_sound :
      (k : String) (m n ks : Map V)
      → agree_at m n ks ≡ true
      → (lookup k ks ≡ none) ⊎ (lookup k m ≡ lookup k n)
  unfolding lookup
  agree_at_sound k m n [] h = inl refl
  agree_at_sound k m n ((j, v) ∷ ks) h =
      ground (arith, eq_iff j k, same_value_iff (lookup j m) (lookup j n), agree_at_sound k m n ks)

  agree_at_complete :
      (m n ks : Map V) → ((k : String) → lookup k m ≡ lookup k n) → agree_at m n ks ≡ true
  agree_at_complete m n [] h = refl
  agree_at_complete m n ((j, v) ∷ ks) h =
      ground (arith, h j, same_value_iff (lookup j m) (lookup j n), agree_at_complete m n ks h)

  -- The test holds exactly when the two maps answer every lookup alike.
  pub deep_equal_iff :
      (m n : Map V) → (deep_equal m n ≡ true) ↔ ((k : String) → lookup k m ≡ lookup k n)
  unfolding deep_equal
  deep_equal_iff m n = (
    λ h k. ground (arith, agree_at_sound k m n m, agree_at_sound k m n n),
    λ h. ground (arith, agree_at_complete m n m h, agree_at_complete m n n h),
  )
