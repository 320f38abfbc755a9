-- ===== src/Name.antt =====
-- pkg/name/name.go: names for the objects that the agent creates, built from parts, and hashed
-- where the plain join would be ambiguous or too long. Go's strings are lists of bytes here.
-- `int` limits are natural numbers; `limit - 11`, negative below 11, is written out.
-- `none` is the panic of a slice out of range. SHA-256, in hexadecimal, is the parameter `digest`.
pub mod Length
pub mod Join
pub mod Unique
mod Examples
use Prim.Native.Char.{code}
use admiralty.Base.{
  ℕ, zero, suc, ◌+◌, ◌-◌, String, Bool, true, false, not, ◌&&◌, ◌||◌, Option, none, some, List, [],
  ◌∷◌, ◌++◌, length, take, any, ltb, eqb, leb, if◌then◌else◌,
}

abbrev pub Bytes : Type 0
Bytes = List ℕ

-- The bytes of a literal, which is ASCII.
abbrev pub codes : String → Bytes
codes String.[] = []
codes (String.◌∷◌ c s) = code c ∷ codes s

abbrev pub short : ℕ
short = 63

abbrev pub long : ℕ
long = 253

abbrev pub dash : ℕ
dash = b'-'

abbrev pub slash : ℕ
slash = b'/'

-- strings.Contains(p, "-")
abbrev pub has_dash : Bytes → Bool
has_dash = any (λ c. eqb c dash)

abbrev pub is_empty : Bytes → Bool
is_empty [] = true
is_empty (c ∷ s) = false

-- m[i], for the set of the constant indices
abbrev mem_index : ℕ → List ℕ → Bool
mem_index i = any (λ j. eqb j i)

-- strings.Join
unfoldable pub join : Bytes → List Bytes → Bytes
join sep [] = []
join sep (p ∷ []) = p
join sep (p ∷ q ∷ ps) = p ++ (sep ++ join sep (q ∷ ps))

-- the `nonEmptyParts` of the loop of `FromParts`
unfoldable pub non_empty : List Bytes → List Bytes
non_empty [] = []
non_empty (p ∷ ps) = let rest = non_empty ps in if is_empty p then rest else p ∷ rest

-- the `hashRequired` of the loop of `FromParts`, from index `i` on; `count` is the number of parts
unfoldable pub hash_required : ℕ → List ℕ → List ℕ → ℕ → List Bytes → Bool
hash_required count constants optionals i [] = false
hash_required count constants optionals i (p ∷ ps) =
    (if is_empty p
      then ltb 1 (length optionals)
      else has_dash p && not (mem_index i constants) && ltb (length constants + 1) count)
    || hash_required count constants optionals (i + 1) ps

-- s[len(s)-1:] == "-", for a text that is not empty
pub last_is_dash : Bytes → Bool
last_is_dash [] = false
last_is_dash (c ∷ []) = eqb c dash
last_is_dash (c ∷ d ∷ s) = last_is_dash (d ∷ s)

-- s[:len(s)-1], for a text that is not empty
pub drop_last : Bytes → Bytes
drop_last [] = []
drop_last (c ∷ []) = []
drop_last (c ∷ d ∷ s) = c ∷ drop_last (d ∷ s)

-- for s[len(s)-1:] == "-" { s = s[:len(s)-1] }: reading the last byte of "" panics. Each round
-- drops a byte, so the length is fuel enough.
pub trim_dashes : ℕ → Bytes → Option Bytes
unfolding last_is_dash drop_last
trim_dashes fuel [] = none
trim_dashes zero (c ∷ s) = none
trim_dashes (suc fuel) (c ∷ s) =
    let rest = trim_dashes fuel (drop_last (c ∷ s)) in
    if last_is_dash (c ∷ s) then rest else some (c ∷ s)

pub truncate : ℕ → Bytes → Option Bytes
unfolding trim_dashes
truncate limit s = if ltb limit (length s) then trim_dashes (length s) (take limit s) else some s

-- The length of the hash; one more byte is for the dash before it.
abbrev pub hash_length : ℕ
hash_length = 10

module _ (digest : Bytes → Bytes) where
  abbrev pub with_hash : Bytes → Option Bytes → Option Bytes
  with_hash key none = none
  with_hash key (some prefix) = some (prefix ++ dash ∷ take hash_length (digest key))

  pub append_hash : ℕ → Bytes → Bytes → Option Bytes
  unfolding truncate
  append_hash limit key s =
      if ltb limit (hash_length + 1)
      then none
      else with_hash key (truncate (limit - (hash_length + 1)) s)

  unfoldable pub from_parts : ℕ → List ℕ → List ℕ → List Bytes → Option Bytes
  unfolding hash_required non_empty join append_hash
  from_parts limit constants optionals parts =
      let s = join (dash ∷ []) (non_empty parts) in
      if not (hash_required (length parts) constants optionals 0 parts) && leb (length s) limit
      then some s
      else append_hash limit (join (slash ∷ []) parts) s
