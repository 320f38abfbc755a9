-- ===== src/Ingress/Backends.antt =====
-- The services that an ingress depends on, as the index has them and as `shouldFollow` looks them up.
use admiralty.Base.{
  String, ◌<>◌, ◌≡◌, refl, Bool, true, false, ◌||◌, any, Option, none, some, List, [], ◌∷◌, ◌++◌,
  get, ◌==◌, eq_refl, Result, ok, err, arith, ◌↔◌, inl, inr, Bool-cases, Option-cases, eq_iff,
}
use admiralty.Common.{annotation_key_global}
use admiralty.Kube.{Meta}
use admiralty.Ingress.{
  Ingress, Reconciler, keys_of_paths, keys_of_rules, index_ingress_by_service, is_global,
  follows_rules, should_follow,
}

abbrev pub lacks_http : Option (List (Option String)) → Bool
lacks_http none = true
lacks_http (some paths) = false

abbrev is_key : String → String → Bool
is_key key k = k == key

any-append :
    {A : Type 0} → (p : A → Bool) (xs ys : List A) → any p (xs ++ ys) ≡ (any p xs || any p ys)
any-append p [] ys = refl
any-append p (x ∷ xs) ys = ground (arith, any-append p xs ys)

keys_of_rules-none :
    (namespace : String) (rules : List (Option (List (Option String))))
    → (keys_of_rules namespace rules ≡ none) ↔ (any lacks_http rules ≡ true)
keys_of_rules-none namespace [] = ground arith
keys_of_rules-none namespace (none ∷ rules) = ground arith
keys_of_rules-none namespace (some paths ∷ rules) =
    ground (arith, keys_of_rules-none namespace rules)

-- The index function fails exactly on the ingresses that have a rule with no HTTP part.
pub index_ingress_by_service-panics :
    (ingress : Ingress)
    → (index_ingress_by_service ingress ≡ none) ↔ (any lacks_http ingress.spec.rules ≡ true)
unfolding index_ingress_by_service
index_ingress_by_service-panics ingress = keys_of_rules-none _ ingress.spec.rules

module _ (r : Reconciler) (namespace : String) where
  -- A service that can be read and is global, under one of the keys.
  abbrev GlobalAmong : List String → Type 0
  GlobalAmong keys =
      (name : String) × (svc : Meta) × (r.svc_lister namespace name ≡ ok svc)
      × (get annotation_key_global svc.annotations ≡ "true")
      × (any (is_key (namespace <> ("/" <> name))) keys ≡ true)

  GlobalAmong-weaken :
      (keys more : List String)
      → ((key : String) → any (is_key key) keys ≡ true → any (is_key key) more ≡ true)
      → GlobalAmong keys
      → GlobalAmong more
  GlobalAmong-weaken keys more inside (name, svc, found, global, there) =
      (name, svc, found, global, inside _ there)

  is_global-GlobalAmong :
      (name : String) (keys : List String) (found : Result Meta)
      → r.svc_lister namespace name ≡ found
      → is_global r namespace (some name) ≡ true
      → GlobalAmong ((namespace <> ("/" <> name)) ∷ keys)
  unfolding is_global
  is_global-GlobalAmong name keys (err e) listed global = ground arith
  is_global-GlobalAmong name keys (ok svc) listed global = (
    name,
    svc,
    listed,
    ground (arith, eq_iff (get annotation_key_global svc.annotations) "true"),
    ground (arith, eq_refl (namespace <> ("/" <> name))),
  )

  paths-GlobalAmong :
      (paths : List (Option String))
      → any (is_global r namespace) paths ≡ true
      → GlobalAmong (keys_of_paths namespace paths)
  unfolding is_global
  paths-GlobalAmong [] global = ground arith
  paths-GlobalAmong (none ∷ paths) global = paths-GlobalAmong paths global
  paths-GlobalAmong (some name ∷ paths) global =
      elim (Bool-cases (is_global r namespace (some name))) [
        | inl here ↦ is_global-GlobalAmong name (keys_of_paths namespace paths) _ refl here
        | inr there ↦
            GlobalAmong-weaken (keys_of_paths namespace paths)
              (keys_of_paths namespace (some name ∷ paths)) (λ key inside. ground arith)
              (paths-GlobalAmong paths (ground arith))
      ]

  rules-GlobalAmong :
      (rules : List (Option (List (Option String)))) (keys : List String)
      → follows_rules r namespace rules ≡ some true
      → keys_of_rules namespace rules ≡ some keys
      → GlobalAmong keys
  rules-GlobalAmong [] keys follows indexed = ground arith
  rules-GlobalAmong (none ∷ rules) keys follows indexed = ground arith
  rules-GlobalAmong (some paths ∷ rules) keys follows indexed =
      elim (Option-cases (keys_of_rules namespace rules)) [
        | inl e ↦ ground arith
        | inr (more, e) ↦ elim (Bool-cases (any (is_global r namespace) paths)) [
          | inl here ↦
              GlobalAmong-weaken (keys_of_paths namespace paths) keys
                (λ key inside.
                  ground (arith, any-append (is_key key) (keys_of_paths namespace paths) more))
                (paths-GlobalAmong paths here)
          | inr there ↦
              GlobalAmong-weaken more keys
                (λ key inside.
                  ground (arith, any-append (is_key key) (keys_of_paths namespace paths) more))
                (rules-GlobalAmong rules more (ground arith) e)
        ]
      ]

-- An ingress that follows, and that can be indexed, has a backend service that is there and global, and
-- that the index has the ingress under: so the service's events put the ingress on the queue.
should_follow-GlobalAmong :
    (r : Reconciler) (ingress : Ingress) (keys : List String)
    → index_ingress_by_service ingress ≡ some keys
    → should_follow r ingress ≡ some true
    → GlobalAmong r ingress.meta.namespace keys
unfolding index_ingress_by_service should_follow
should_follow-GlobalAmong r ingress keys indexed follows =
    rules-GlobalAmong r _ ingress.spec.rules keys follows indexed
