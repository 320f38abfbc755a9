-- ===== src/Base/Effects/Leads.antt =====
-- From a condition on the calls before an action to one on the calls after it, with one rule for each way
-- to build an action: `R` where it returns a value, `E` where it ends with an error.
use mathlib.Core.Path.{◌≡◌, refl}
use mathlib.Core.Bool.{Bool, true, false}
use mathlib.Core.List.{List, ◌∷◌}
use admiralty.Base.Tests.{if◌then◌else◌}
use admiralty.Base.Effects.{Error, Result, ok, err, Exec, return, fail, send, try, ◌>>=◌}

abbrev After {ℓ κ} :
    {C A : Type ℓ} → (A → List C → Type κ) → (List C → Type κ) → Result A → List C → Type κ
After R E (ok a) log = R a log
After R E (err e) log = E log

pub record Leads {ℓ κ} {C A : Type ℓ} (P : List C → Type κ) (m : Exec C A) (R : A → List C → Type κ)
    (E : List C → Type κ) : Type (ℓ ⊔ κ) where
  pub at : (log : List C) → P log → After R E (m log).0 (m log).1

module _ {ℓ κ} {C A : Type ℓ} {P : List C → Type κ} {R : A → List C → Type κ}
    {E : List C → Type κ} where
  pub Leads-return : (a : A) → ((log : List C) → P log → R a log) → Leads P (return a) R E
  unfolding return
  Leads-return a after = record { at = after }

  pub Leads-fail : (e : Error) → ((log : List C) → P log → E log) → Leads P (fail {A = A} e) R E
  unfolding fail
  Leads-fail e after = record { at = after }

  pub Leads-send :
      (c : C) (answer : List C → Result A)
      → ((log : List C) (a : A) → P log → answer log ≡ ok a → R a (c ∷ log))
      → ((log : List C) (e : Error) → P log → answer log ≡ err e → E (c ∷ log))
      → Leads P (send c answer) R E
  unfolding send
  Leads-send c answer answered failed = record { at = λ log p. split log p (answer log) refl }
    where
      split : (log : List C) → P log → (r : Result A) → answer log ≡ r → After R E r (c ∷ log)
      split log p (ok a) e = answered log a p e
      split log p (err x) e = failed log x p e

  pub Leads-if :
      (b : Bool) (m n : Exec C A)
      → (b ≡ true → Leads P m R E)
      → (b ≡ false → Leads P n R E)
      → Leads P (if b then m else n) R E
  Leads-if true m n then_case else_case = then_case refl
  Leads-if false m n then_case else_case = else_case refl

module _ {ℓ κ} {C A B : Type ℓ} {P : List C → Type κ} {R : A → List C → Type κ}
    {S : B → List C → Type κ} {E : List C → Type κ} where
  pub Leads-bind :
      (m : Exec C A) (f : A → Exec C B)
      → Leads P m R E
      → ((a : A) → Leads (R a) (f a) S E)
      → Leads P (m >>= f) S E
  unfolding ◌>>=◌
  Leads-bind m f first next = record { at = λ log p. go (m log) (first.at log p) }
    where
      go :
          (r : Result A × List C)
          → After R E r.0 r.1
          → (let s = elim r.0 as (λ _. Result B × List C) [
            | ok a ↦ f a r.1
            | err e ↦ (err e, r.1)
          ] in
              After S E s.0 s.1)
      go (ok a, log) h = (next a).at log h
      go (err e, log) h = h

  pub Leads-try :
      {F : List C → Type κ}
      → (m : Exec C A) (failing : Error → Exec C B) (f : A → Exec C B) → Leads P m R F
      → ((e : Error) → Leads F (failing e) S E)
      → ((a : A) → Leads (R a) (f a) S E)
      → Leads P (try m failing f) S E
  unfolding try
  Leads-try {F} m failing f first failed next = record { at = λ log p. go (m log) (first.at log p) }
    where
      go :
          (r : Result A × List C)
          → After R F r.0 r.1
          → (let s = elim r.0 as (λ _. Result B × List C) [
            | ok a ↦ f a r.1
            | err e ↦ failing e r.1
          ] in
              After S E s.0 s.1)
      go (ok a, log) h = (next a).at log h
      go (err e, log) h = (failed e).at log h

module _ {ℓ κ} {C A : Type ℓ} {P Q : List C → Type κ} {R : A → List C → Type κ}
    {E : List C → Type κ} where
  Leads-before : {m : Exec C A} → ((log : List C) → P log → Q log) → Leads Q m R E → Leads P m R E
  Leads-before first l = record { at = λ log p. l.at log (first log p) }

module _ {ℓ κ} {C A : Type ℓ} {P S : List C → Type κ} where
  -- Where the same holds of both ends, it holds.
  pub Leads-ends : (m : Exec C A) (log : List C) → Leads P m (λ _. S) S → P log → S (m log).1
  Leads-ends m log l p = both (m log) (l.at log p)
    where
      both : (r : Result A × List C) → After (λ _. S) S r.0 r.1 → S r.1
      both (ok a, log) s = s
      both (err e, log) s = s
