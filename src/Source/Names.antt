-- ===== src/Source/Names.antt =====
-- The names of the bindings of cluster sources.
use admiralty.Base.{
  ◌≡◌, refl, true, leb, false, some, List, [], ◌∷◌, ◌++◌, ℕ, ◌≤◌, length, length-append, arith, ◌∙◌,
  sym,
}
use admiralty.Name.{Bytes, codes, long, dash, is_empty, from_parts, hash_required, non_empty, join}
use admiralty.Source.{cluster_source_binding_name, cluster_source_viewer_name}

module _ (digest : Bytes → Bytes) where
  -- Where nothing asks for a hash, the name is the plain join.
  from_parts-plain :
      (constants : List ℕ) (parts : List Bytes) (s : Bytes)
      → hash_required (length parts) constants [] 0 parts ≡ false
      → join (dash ∷ []) (non_empty parts) ≡ s
      → leb (length s) long ≡ true
      → from_parts digest long constants [] parts ≡ some s
  unfolding from_parts
  from_parts-plain constants parts s plain joined fits = rw (plain, joined, fits)

hash_required-first :
    (p q : Bytes)
    → is_empty p ≡ false
    → is_empty q ≡ false
    → hash_required 2 (0 ∷ []) [] 0 (p ∷ q ∷ []) ≡ false
unfolding hash_required
hash_required-first p q full full' = ground arith

hash_required-outer :
    (p q s : Bytes)
    → is_empty p ≡ false
    → is_empty q ≡ false
    → is_empty s ≡ false
    → hash_required 3 (0 ∷ 2 ∷ []) [] 0 (p ∷ q ∷ s ∷ []) ≡ false
unfolding hash_required
hash_required-outer p q s full full' full'' = ground arith

abbrev pub viewer_suffix : Bytes
viewer_suffix = codes "-cluster-summary-viewer"

abbrev prefix : Bytes
prefix = codes "admiralty-cluster-source"

abbrev full_name : ℕ → Bytes → Bytes
full_name c name = prefix ++ dash ∷ c ∷ (name ++ viewer_suffix)

full_name-fits :
    (c : ℕ) (name : Bytes) → length name ≤ 204 → leb (length (full_name c name)) long ≡ true
full_name-fits c name bound = ground (arith, length-append name viewer_suffix, bound)

binding_name :
    (digest : Bytes → Bytes) (c : ℕ) (name : Bytes)
    → length name ≤ 204
    → cluster_source_binding_name digest (c ∷ (name ++ viewer_suffix)) ≡ some (full_name c name)
unfolding cluster_source_binding_name non_empty join
binding_name digest c name bound =
    from_parts-plain digest (0 ∷ []) (prefix ∷ (c ∷ (name ++ viewer_suffix)) ∷ [])
      (full_name c name) (hash_required-first prefix (c ∷ (name ++ viewer_suffix)) refl refl) refl
      (full_name-fits c name bound)

viewer_name :
    (digest : Bytes → Bytes) (c : ℕ) (name : Bytes)
    → length name ≤ 204
    → cluster_source_viewer_name digest (c ∷ name) ≡ some (full_name c name)
unfolding cluster_source_viewer_name non_empty join
viewer_name digest c name bound =
    from_parts-plain digest (0 ∷ 2 ∷ []) (prefix ∷ (c ∷ name) ∷ codes "cluster-summary-viewer" ∷ [])
      (full_name c name)
      (hash_required-outer prefix (c ∷ name) (codes "cluster-summary-viewer") refl refl refl) refl
      (full_name-fits c name bound)

-- Where a cluster source has a name of 1 to 205 bytes, its binding to the cluster summary viewer has the
-- name that the cluster source of the name with `-cluster-summary-viewer` behind it has for its
-- binding to the source role.
pub cluster_source_names-collide :
    (digest : Bytes → Bytes) (c : ℕ) (name : Bytes)
    → length name ≤ 204
    → cluster_source_binding_name digest (c ∷ (name ++ viewer_suffix))
      ≡ cluster_source_viewer_name digest (c ∷ name)
cluster_source_names-collide digest c name bound =
    binding_name digest c name bound ∙ sym (viewer_name digest c name bound)
