-- ===== src/Plugins.antt =====
-- pkg/scheduler_plugins: the plugins of the proxy scheduler, in the source cluster, and of the
-- candidate scheduler, in the target clusters. Here is what the two share of the scheduling
-- framework, and the polling of k8s.io/apimachinery's `wait` package, which is a parameter.
pub mod Proxy
pub mod Candidate
use admiralty.Base.{
  ℕ, zero, suc, String, ◌≡◌, refl, subst, Option, none, some, List, Result, ok, err, Error, Exec,
  return, fail, ◌>>=◌, bind-Returns, Makes, Makes-return, Makes-bind, Makes-fail,
}

-- framework.Code, as far as the plugins use it
pub data Code : Type 0 where
  failure unschedulable unschedulable_and_unresolvable : Code

-- framework.Status: `success` stands for nil
pub data Status : Type 0 where
  success : Status
  refused : Code → String → Status

-- A condition gives nothing while it is not met, a value when it is, or an error. Polling calls
-- it once, and again at every tick, until it gives a value or an error or the context is done.
unfoldable pub answer_or : {C A : Type 0} → Exec C A → Option A → Exec C A
answer_or later (some a) = return a
answer_or later none = later

unfoldable pub rounds : {C A : Type 0} → Error → ℕ → Exec C (Option A) → Exec C A
unfolding answer_or
rounds timed_out zero condition = condition >>= answer_or (fail timed_out)
rounds timed_out (suc n) condition = condition >>= answer_or (rounds timed_out n condition)

-- wait.PollImmediateUntil with the timeout of the plugin's method. It stops after some number of
-- rounds, which may depend on anything.
pub record Poller (C : Type 0) : Type 1 where
  pub poll : {A : Type 0} → Exec C (Option A) → Exec C A
  pub timed_out : Error
  pub ticks : {A : Type 0} → Exec C (Option A) → List C → ℕ
  pub poll_rounds :
      {A : Type 0} (condition : Exec C (Option A)) (log : List C)
      → poll condition log ≡ rounds timed_out (ticks condition log) condition log

-- What polling ends with was given by a round of the condition.
module _ {C A : Type 0} (condition : Exec C (Option A)) (a : A) where
  abbrev pub Met : Type 0
  Met = (log : List C) × ((condition log).0 ≡ ok (some a))

  round-Met :
      (later : Exec C A)
      → ((log : List C) → (later log).0 ≡ ok a → Met)
      → (log : List C) → ((condition >>= answer_or later) log).0 ≡ ok a
      → Met
  unfolding answer_or return
  round-Met later met log e = bind-Returns condition (answer_or later) log e (answered log)
    where
      answered :
          (log : List C) (r : Option A) (log' : List C)
          → condition log ≡ (ok r, log')
          → (answer_or later r log').0 ≡ ok a
          → Met
      answered log (some b) log' c e = (log, cc)
      answered log none log' c e = met log' e

  rounds-Met :
      (timed_out : Error) (n : ℕ) (log : List C) → (rounds timed_out n condition log).0 ≡ ok a → Met
  unfolding rounds fail
  rounds-Met timed_out zero log e = round-Met (fail timed_out) (never timed_out) log e
    where
      never :
          (timed_out : Error) (log : List C) → (fail {C = C} {A = A} timed_out log).0 ≡ ok a → Met
      never timed_out log e = cc
  rounds-Met timed_out (suc n) log e =
      round-Met (rounds timed_out n condition) (rounds-Met timed_out n) log e

  pub poll-Met : (poller : Poller C) (log : List C) → (poller.poll condition log).0 ≡ ok a → Met
  poll-Met poller log e =
      rounds-Met poller.timed_out (poller.ticks condition log) log
        (subst (λ r. r.0 ≡ ok a) (poller.poll_rounds condition log) e)

-- Polling makes no calls but the condition's.
module _ {C A : Type 0} {P : C → Type 0} (condition : Exec C (Option A)) where
  answer_or-Makes : (later : Exec C A) (r : Option A) → Makes P later → Makes P (answer_or later r)
  unfolding answer_or
  answer_or-Makes later none k = k
  answer_or-Makes later (some a) k = Makes-return a

  rounds-Makes :
      (timed_out : Error) (n : ℕ) → Makes P condition → Makes P (rounds timed_out n condition)
  unfolding rounds
  rounds-Makes timed_out zero k =
      Makes-bind condition _ k (λ r. answer_or-Makes _ r (Makes-fail timed_out))
  rounds-Makes timed_out (suc n) k =
      Makes-bind condition _ k (λ r. answer_or-Makes _ r (rounds-Makes timed_out n k))

  pub poll-Makes : (poller : Poller C) → Makes P condition → Makes P (poller.poll condition)
  poll-Makes poller k = record {
    at = λ log h.
        rw (poller.poll_rounds condition log)
          ((rounds-Makes poller.timed_out (poller.ticks condition log) k).at log h);
  }
