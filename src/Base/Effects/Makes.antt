-- ===== src/Base/Effects/Makes.antt =====
-- A property of every call that an action makes, with one rule for each way to build an action.
use mathlib.Core.Path.{◌≡◌, refl, subst}
use mathlib.Core.Bool.{Bool, true, false}
use mathlib.Core.List.{List, []}
use admiralty.Base.Tests.{if◌then◌else◌}
use admiralty.Base.Lists.{All}
use admiralty.Base.Effects.{
  Error, Result, ok, err, Exec, return, fail, lift, send, try, ◌>>=◌, run, calls,
}

pub record Makes {ℓ κ} {C A : Type ℓ} (P : C → Type κ) (m : Exec C A) : Type (ℓ ⊔ κ) where
  pub at : (log : List C) → All P log → All P (m log).1

module _ {ℓ κ} {C A : Type ℓ} {P : C → Type κ} where
  pub Makes-return : (a : A) → Makes P (return {C = C} a)
  unfolding return
  Makes-return a = record { at = λ log h. h }

  pub Makes-fail : (e : Error) → Makes P (fail {C = C} {A = A} e)
  unfolding fail
  Makes-fail e = record { at = λ log h. h }

  pub Makes-lift : (r : Result A) → Makes P (lift {C = C} r)
  unfolding lift
  Makes-lift r = record { at = λ log h. h }

  pub Makes-send : (c : C) (answer : List C → Result A) → P c → Makes P (send c answer)
  unfolding send
  Makes-send c answer p = record { at = λ log h. (p, h) }

  pub Makes-if :
      (b : Bool) (m n : Exec C A)
      → (b ≡ true → Makes P m)
      → (b ≡ false → Makes P n)
      → Makes P (if b then m else n)
  Makes-if true m n km kn = km refl
  Makes-if false m n km kn = kn refl

  -- Every call of an action that starts with no calls made has the property.
  pub All-calls : (m : Exec C A) → Makes P m → All P (calls m)
  unfolding run
  All-calls m k = k.at [] tt

module _ {ℓ κ} {C A B : Type ℓ} {P : C → Type κ} where
  pub Makes-bind :
      (m : Exec C A) (f : A → Exec C B) → Makes P m → ((a : A) → Makes P (f a)) → Makes P (m >>= f)
  unfolding ◌>>=◌
  Makes-bind m f km kf = record { at = λ log h. go (m log) (km.at log h) }
    where
      go :
          (r : Result A × List C)
          → All P r.1
          → All P (elim r.0 as (λ _. Result B × List C) [ ok a ↦ f a r.1 | err e ↦ (err e, r.1) ]).1
      go (ok a, log) h = (kf a).at log h
      go (err e, log) h = h

module _ {ℓ κ} {C A B : Type ℓ} {P : C → Type κ} where
  pub Makes-try :
      (m : Exec C A) (failing : Error → Exec C B) (f : A → Exec C B)
      → Makes P m
      → ((e : Error) → Makes P (failing e))
      → ((a : A) → Makes P (f a))
      → Makes P (try m failing f)
  unfolding try
  Makes-try m failing f km ke kf = record { at = λ log h. go (m log) (km.at log h) }
    where
      go :
          (r : Result A × List C)
          → All P r.1
          → All P
              (elim r.0 as (λ _. Result B × List C) [ ok a ↦ f a r.1 | err e ↦ failing e r.1 ]).1
      go (ok a, log) h = (kf a).at log h
      go (err e, log) h = (ke e).at log h

-- What every value that an action returns satisfies, whatever calls came before.
pub record Yields {ℓ κ} {C A : Type ℓ} (Q : A → Type κ) (m : Exec C A) : Type (ℓ ⊔ κ) where
  pub at : (log : List C) (a : A) → (m log).0 ≡ ok a → Q a

module _ {ℓ κ} {C A : Type ℓ} {Q : A → Type κ} where
  pub Yields-return : (a : A) → Q a → Yields Q (return {C = C} a)
  unfolding return
  Yields-return a q = record { at = λ log b e. subst Q (ok_inj a b e) q }
    where
      ok_inj : (a b : A) → ok a ≡ ok b → a ≡ b
      ok_inj a b e = cc

  pub Yields-lift : (r : Result A) → ((a : A) → r ≡ ok a → Q a) → Yields Q (lift {C = C} r)
  unfolding lift
  Yields-lift r q = record { at = λ log a e. q a e }

  pub Yields-if :
      (b : Bool) (m n : Exec C A) → Yields Q m → Yields Q n → Yields Q (if b then m else n)
  Yields-if true m n ym yn = ym
  Yields-if false m n ym yn = yn

module _ {ℓ κ} {C A B : Type ℓ} {Q : B → Type κ} where
  pub Yields-bind :
      (m : Exec C A) (f : A → Exec C B) → ((a : A) → Yields Q (f a)) → Yields Q (m >>= f)
  unfolding ◌>>=◌
  Yields-bind m f yf = record { at = λ log b. go (m log) b }
    where
      go :
          (r : Result A × List C) (b : B)
          → (elim r.0 as (λ _. Result B × List C) [ ok a ↦ f a r.1 | err e ↦ (err e, r.1) ]).0
            ≡ ok b
          → Q b
      go (ok a, log) b e = (yf a).at log b e
      go (err x, log) b e = cc

module _ {ℓ κ μ} {C A B : Type ℓ} {P : C → Type κ} {Q : A → Type μ} where
  -- The rest of the block may use what the first action yields.
  pub Makes-bind-Yields :
      (m : Exec C A) (f : A → Exec C B)
      → Makes P m
      → Yields Q m
      → ((a : A) → Q a → Makes P (f a))
      → Makes P (m >>= f)
  unfolding ◌>>=◌
  Makes-bind-Yields m f km ym kf = record { at = λ log h. go (m log) (km.at log h) (ym.at log) }
    where
      go :
          (r : Result A × List C)
          → All P r.1
          → ((a : A) → r.0 ≡ ok a → Q a)
          → All P (elim r.0 as (λ _. Result B × List C) [ ok a ↦ f a r.1 | err e ↦ (err e, r.1) ]).1
      go (ok a, log) h y = (kf a (y a refl)).at log h
      go (err e, log) h y = h

pub ruleset makes_rules =
    (Makes-return, Makes-fail, Makes-lift, Makes-if, Makes-send, Makes-bind, Makes-try)
