-- ===== src/Base/Effects.antt =====
-- Calls of the Kubernetes API: an action makes calls, each put at the front of the list of the
-- calls made so far, and ends with a value or an error. The API server is no part of the program:
-- what it answers is a parameter, which may depend on the calls made before.
use Prim.Native.String.{String, ◌++◌ as ◌<>◌}
use mathlib.Core.Path.{◌≡◌, refl}
use mathlib.Core.Bool.{Bool, true, false}
use mathlib.Core.List.{List, [], ◌∷◌}
pub mod Makes
pub mod Returns
pub mod Leads
pub mod Keeps
use text.Mathlib.Text.{find?}
use admiralty.Base.Tests.{is_some}

-- The reasons of a `StatusError` that the program tells apart.
pub data Reason : Type 0 where
  not_found already_exists unknown : Reason

pub record Error : Type 0 where
  pub reason : Reason
  pub message : String

pub data Result {ℓ} (A : Type ℓ) : Type ℓ where
  ok : A → Result A
  err : Error → Result A

-- errors.IsNotFound
abbrev pub is_not_found : Error → Bool
is_not_found e = elim e.reason [ not_found ↦ true | _ ↦ false ]

-- errors.IsAlreadyExists
abbrev pub is_already_exists : Error → Bool
is_already_exists e = elim e.reason [ already_exists ↦ true | _ ↦ false ]

abbrev pub contains : String → String → Bool
contains s t = is_some (find? s t)

-- fmt.Errorf: the new error keeps the text of the old one, and loses its reason
abbrev pub errorf : String → Error
errorf s = record { reason = unknown; message = s }

-- The panic of an assignment to an entry of a nil map.
abbrev pub nil_map : Error
nil_map = errorf "assignment to entry in nil map"

abbrev pub wrap : String → Error → Error
wrap s e = record { reason = unknown; message = s <> e.message }

abbrev pub Exec {ℓ κ} : Type ℓ → Type κ → Type (ℓ ⊔ κ)
Exec C A = List C → Result A × List C

module _ {ℓ κ} {C : Type ℓ} {A : Type κ} where
  unfoldable pub return : A → Exec C A
  return a log = (ok a, log)

  unfoldable pub fail : Error → Exec C A
  fail e log = (err e, log)

  unfoldable pub lift : Result A → Exec C A
  lift r log = (r, log)

  -- One call: it is recorded, whatever the answer.
  unfoldable pub send : C → (List C → Result A) → Exec C A
  send c answer log = (answer log, c ∷ log)

-- A call of a server whose answer has a type for each call.
abbrev pub request {ℓ κ} :
    {C : Type ℓ} {A : C → Type κ} → ((log : List C) (c : C) → Result (A c)) → (c : C) → Exec C (A c)
request server c = send c (λ log. server log c)

infixl 5 ◌>>=◌ ◌>>◌
unfoldable pub ◌>>=◌ {ℓ κ μ} :
    {C : Type ℓ} {A : Type κ} {B : Type μ} → Exec C A → (A → Exec C B) → Exec C B
◌>>=◌ m f log = let (r, log') = m log in elim r [ ok a ↦ f a log' | err e ↦ (err e, log') ]

pub lift-bind {ℓ κ μ} :
    {C : Type ℓ} {A : Type κ} {B : Type μ} (a : A) (f : A → Exec C B)
    → (lift {C = C} (ok a) >>= f) ≡ f a
unfolding lift ◌>>=◌
lift-bind a f = refl

pub return-bind {ℓ κ μ} :
    {C : Type ℓ} {A : Type κ} {B : Type μ} (a : A) (f : A → Exec C B)
    → (return {C = C} a >>= f) ≡ f a
unfolding return ◌>>=◌
return-bind a f = refl

-- `x, err := …` where the code looks at the error: what it does with it, and with the value
unfoldable pub try {ℓ κ μ} :
    {C : Type ℓ} {A : Type κ} {B : Type μ}
    → Exec C A
    → (Error → Exec C B)
    → (A → Exec C B)
    → Exec C B
try m failing f log = let (r, log') = m log in elim r [ ok a ↦ f a log' | err e ↦ failing e log' ]

abbrev pub ◌>>◌ {ℓ κ} : {C : Type ℓ} {B : Type κ} → Exec C (Unit {0}) → Exec C B → Exec C B
m >> k = m >>= λ _. k

-- The result of an action and its calls, the last one first.
unfoldable pub run {ℓ κ} : {C : Type ℓ} {A : Type κ} → Exec C A → Result A × List C
unfolding return fail lift send try ◌>>=◌
run m = m []

-- The calls of an action, whatever its result.
abbrev pub calls {ℓ κ} : {C : Type ℓ} {A : Type κ} → Exec C A → List C
calls m = (run m).1
