-- ===== src/Base/Effects/Keeps.antt =====
-- An action drops no call that was made before it, with one rule for each way to build an action; and a
-- call that the first part of an action makes is among all its calls.
use mathlib.Core.Path.{refl}
use mathlib.Core.Bool.{Bool, true, false}
use mathlib.Core.List.{List, []}
use mathlib.Core.Logic.{inl, inr}
use admiralty.Base.Tests.{if◌then◌else◌}
use admiralty.Base.Lists.{Among}
use admiralty.Base.Effects.{
  Error, Result, ok, err, Exec, return, fail, send, try, ◌>>=◌, run, calls,
}

pub record Keeps {C A : Type 0} (c : C) (m : Exec C A) : Type 0 where
  pub at : (log : List C) → Among c log → Among c (m log).1

pub record Adds {C A : Type 0} (c : C) (m : Exec C A) : Type 0 where
  pub at : (log : List C) → Among c (m log).1

module _ {C A : Type 0} {c : C} where
  pub Keeps-return : (a : A) → Keeps c (return {C = C} a)
  unfolding return
  Keeps-return a = record { at = λ log h. h }

  pub Keeps-fail : (e : Error) → Keeps c (fail {C = C} {A = A} e)
  unfolding fail
  Keeps-fail e = record { at = λ log h. h }

  pub Keeps-send : (d : C) (answer : List C → Result A) → Keeps c (send d answer)
  unfolding send
  Keeps-send d answer = record { at = λ log h. inr h }

  pub Keeps-if : (b : Bool) (m n : Exec C A) → Keeps c m → Keeps c n → Keeps c (if b then m else n)
  Keeps-if true m n km kn = km
  Keeps-if false m n km kn = kn

  pub Adds-send : (answer : List C → Result A) → Adds c (send c answer)
  unfolding send
  Adds-send answer = record { at = λ log. inl refl }

  pub Adds-calls : (m : Exec C A) → Adds c m → Among c (calls m)
  unfolding run
  Adds-calls m k = k.at []

module _ {C A B : Type 0} {c : C} where
  after-bind :
      (f : A → Exec C B)
      → ((a : A) → Keeps c (f a))
      → (r : Result A × List C) → Among c r.1
      → Among c (elim r.0 as (λ _. Result B × List C) [ ok a ↦ f a r.1 | err e ↦ (err e, r.1) ]).1
  after-bind f kf (ok a, log) h = (kf a).at log h
  after-bind f kf (err e, log) h = h

  pub Keeps-bind :
      (m : Exec C A) (f : A → Exec C B) → Keeps c m → ((a : A) → Keeps c (f a)) → Keeps c (m >>= f)
  unfolding ◌>>=◌
  Keeps-bind m f km kf = record { at = λ log h. after-bind f kf (m log) (km.at log h) }

  pub Adds-bind :
      (m : Exec C A) (f : A → Exec C B) → Adds c m → ((a : A) → Keeps c (f a)) → Adds c (m >>= f)
  unfolding ◌>>=◌
  Adds-bind m f km kf = record { at = λ log. after-bind f kf (m log) (km.at log) }

  after-try :
      (failing : Error → Exec C B) (f : A → Exec C B)
      → ((e : Error) → Keeps c (failing e))
      → ((a : A) → Keeps c (f a))
      → (r : Result A × List C) → Among c r.1
      → Among c (elim r.0 as (λ _. Result B × List C) [ ok a ↦ f a r.1 | err e ↦ failing e r.1 ]).1
  after-try failing f ke kf (ok a, log) h = (kf a).at log h
  after-try failing f ke kf (err e, log) h = (ke e).at log h

  pub Keeps-try :
      (m : Exec C A) (failing : Error → Exec C B) (f : A → Exec C B)
      → Keeps c m
      → ((e : Error) → Keeps c (failing e))
      → ((a : A) → Keeps c (f a))
      → Keeps c (try m failing f)
  unfolding try
  Keeps-try m failing f km ke kf = record {
    at = λ log h. after-try failing f ke kf (m log) (km.at log h);
  }

  pub Adds-try :
      (m : Exec C A) (failing : Error → Exec C B) (f : A → Exec C B)
      → Adds c m
      → ((e : Error) → Keeps c (failing e))
      → ((a : A) → Keeps c (f a))
      → Adds c (try m failing f)
  unfolding try
  Adds-try m failing f km ke kf = record {
    at = λ log. after-try failing f ke kf (m log) (km.at log);
  }

pub ruleset keeps_rules = (Keeps-return, Keeps-fail, Keeps-if, Keeps-send, Keeps-bind, Keeps-try)
