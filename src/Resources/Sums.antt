-- ===== src/Resources/Sums.antt =====
-- The sum that the loops compute, resource by resource.
use admiralty.Base.{
  String, ◌≡◌, refl, ◌∙◌, Option, none, some, List, [], ◌∷◌, Map, lookup, insert, ◌==◌, eq_iff,
  arith, if◌then◌else◌,
}
use admiralty.Resources.{add_resource, add_resources}

-- The values of the entries with that key, in order.
abbrev pub values {ℓ} : {A : Type ℓ} → String → Map A → List A
values k [] = []
values k ((j, v) ∷ m) = let rest = values k m in if j == k then v ∷ rest else rest

module _ {Q : Type 0} (plus : Q → Q → Q) where
  -- What is added up from a first value, if there is one.
  pub total : Option Q → List Q → Option Q
  total sum [] = sum
  total none (q ∷ qs) = total (some q) qs
  total (some s) (q ∷ qs) = total (some (plus s q)) qs

  lookup-add_resource :
      (k res : String) (qty : Q) (acc : Map Q) (rest : List Q)
      → total (lookup k (add_resource plus res qty (lookup res acc) acc)) rest
        ≡ total (lookup k acc) (if res == k then qty ∷ rest else rest)
  unfolding total lookup insert
  lookup-add_resource k res qty acc rest = ground (arith, eq_iff res k, same res k acc)
    where
      same : (u v : String) (m : Map Q) → u ≡ v → lookup u m ≡ lookup v m
      same u v m e = cc

  pub lookup-add_resources :
      (k : String) (acc m : Map Q)
      → lookup k (add_resources plus acc m) ≡ total (lookup k acc) (values k m)
  unfolding add_resources total
  lookup-add_resources k acc [] = refl
  lookup-add_resources k acc ((res, qty) ∷ more) =
      lookup-add_resources k (add_resource plus res qty (lookup res acc) acc) more
      ∙ lookup-add_resource k res qty acc (values k more)
