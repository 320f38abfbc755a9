-- ===== src/Base/Effects/Returns.antt =====
-- From what an action returns back to what its parts returned.
use mathlib.Core.Path.{◌≡◌, refl, sym, subst}
use mathlib.Core.Bool.{Bool, true, false}
use mathlib.Core.List.{List}
use admiralty.Base.Tests.{if◌then◌else◌}
use admiralty.Base.Effects.{Error, Result, ok, err, Exec, try, ◌>>=◌}

pub ok_inj {ℓ} : {A : Type ℓ} {a b : A} → ok a ≡ ok b → a ≡ b
ok_inj e = cc

module _ {ℓ κ μ ν} {C : Type ℓ} {A : Type κ} {B : Type μ} {P : Type ν} {b : B} where
  pub bind-Returns :
      (m : Exec C A) (f : A → Exec C B) (log : List C)
      → ((m >>= f) log).0 ≡ ok b
      → ((a : A) (log' : List C) → m log ≡ (ok a, log') → (f a log').0 ≡ ok b → P)
      → P
  unfolding ◌>>=◌
  bind-Returns m f log e after = split (m log) refl e
    where
      split :
          (r : Result A × List C)
          → m log ≡ r
          → (elim r.0 as (λ _. Result B × List C) [ ok a ↦ f a r.1 | err x ↦ (err x, r.1) ]).0
            ≡ ok b
          → P
      split (ok a, log') made e = after a log' made e
      split (err x, log') made e = cc

  pub try-Returns :
      (m : Exec C A) (failing : Error → Exec C B) (f : A → Exec C B) (log : List C)
      → (try m failing f log).0 ≡ ok b
      → ((x : Error) (log' : List C) → (failing x log').0 ≡ ok b → P)
      → ((a : A) (log' : List C) → m log ≡ (ok a, log') → (f a log').0 ≡ ok b → P)
      → P
  unfolding try
  try-Returns m failing f log e failed after = split (m log) refl e
    where
      split :
          (r : Result A × List C)
          → m log ≡ r
          → (elim r.0 as (λ _. Result B × List C) [ ok a ↦ f a r.1 | err x ↦ failing x r.1 ]).0
            ≡ ok b
          → P
      split (ok a, log') made e = after a log' made e
      split (err x, log') made e = failed x log' e

module _ {ℓ κ ν} {C : Type ℓ} {B : Type κ} {P : Type ν} {v : B} where
  pub if-Returns :
      (b : Bool) (m n : Exec C B) (log : List C)
      → ((if b then m else n) log).0 ≡ ok v
      → (b ≡ true → (m log).0 ≡ ok v → P)
      → (b ≡ false → (n log).0 ≡ ok v → P)
      → P
  if-Returns true m n log e yes_case no_case = yes_case refl e
  if-Returns false m n log e yes_case no_case = no_case refl e

module _ {ℓ κ μ} {C : Type ℓ} {A : Type κ} {B : Type μ} where
  pub bind_ok :
      (m : Exec C A) (f : A → Exec C B) (log log' : List C) (a : A)
      → m log ≡ (ok a, log')
      → (m >>= f) log ≡ f a log'
  unfolding ◌>>=◌
  bind_ok m f log log' a e =
      subst
        (λ r.
          (elim r.0 as (λ _. Result B × List C) [ ok b ↦ f b r.1 | err x ↦ (err x, r.1) ])
          ≡ f a log')
        (sym e) refl

  pub try_ok :
      (m : Exec C A) (failing : Error → Exec C B) (f : A → Exec C B) (log log' : List C) (a : A)
      → m log ≡ (ok a, log')
      → try m failing f log ≡ f a log'
  unfolding try
  try_ok m failing f log log' a e =
      subst
        (λ r.
          (elim r.0 as (λ _. Result B × List C) [ ok b ↦ f b r.1 | err x ↦ failing x r.1 ])
          ≡ f a log')
        (sym e) refl

-- The same, with the calls.
module _ {ℓ κ μ ν} {C : Type ℓ} {A : Type κ} {B : Type μ} {P : Type ν} {v : B × List C} where
  pub bind-Gives :
      (m : Exec C A) (f : A → Exec C B) (log : List C)
      → (m >>= f) log ≡ (ok v.0, v.1)
      → ((a : A) (log' : List C) → m log ≡ (ok a, log') → f a log' ≡ (ok v.0, v.1) → P)
      → P
  unfolding ◌>>=◌
  bind-Gives m f log e after = split (m log) refl e
    where
      split :
          (r : Result A × List C)
          → m log ≡ r
          → (elim r.0 as (λ _. Result B × List C) [ ok a ↦ f a r.1 | err x ↦ (err x, r.1) ])
            ≡ (ok v.0, v.1)
          → P
      split (ok a, log') made e = after a log' made e
      split (err x, log') made e = cc

module _ {ℓ κ ν} {C : Type ℓ} {B : Type κ} {P : Type ν} {v : B × List C} where
  pub if-Gives :
      (b : Bool) (m n : Exec C B) (log : List C)
      → (if b then m else n) log ≡ (ok v.0, v.1)
      → (b ≡ true → m log ≡ (ok v.0, v.1) → P)
      → (b ≡ false → n log ≡ (ok v.0, v.1) → P)
      → P
  if-Gives true m n log e yes_case no_case = yes_case refl e
  if-Gives false m n log e yes_case no_case = no_case refl e
