-- ===== src/Cleanup.antt =====
-- pkg/controllers/cleanup/controller.go: the finalizers of targets that are known no more come off the
-- objects that have them. The five listers are one parameter, by kind; the patch is the list of the
-- finalizers that it deletes.
pub mod Unknown
pub mod Spares
pub mod Events
mod Examples
use admiralty.Base.{
  ℕ, String, ◌<>◌, Bool, true, false, not, ◌&&◌, Option, none, some, List, [], ◌∷◌, Map, lookup,
  insert, ◌==◌, if◌then◌else◌, Result, ok, err, Error, is_not_found, errorf, wrap, Exec, return,
  fail, try, request,
}
use admiralty.Common.{is_ours}
use admiralty.Kube.{Meta}

pub record Key : Type 0 where
  pub kind : String
  pub namespace : String
  pub name : String

pub data Call : Type 0 where
  patch_finalizers : Key → List String → Call

abbrev pub Answer : Call → Type 0
Answer (patch_finalizers k finalizers) = Unit {0}

pub record Reconciler : Type 0 where
  pub server : (log : List Call) (c : Call) → Result (Answer c)
  pub lister : Key → Result Meta
  pub known_finalizers : Map Bool

-- The loop of NewController.
pub know : List String → Map Bool
know [] = []
know (f ∷ fs) = insert f true (know fs)

abbrev pub is_known : Map Bool → String → Bool
is_known known f = elim (lookup f known) [ none ↦ false | some b ↦ b ]

-- The cases of both switches.
abbrev pub is_kind : String → Bool
is_kind kind =
    if kind == "Pod"
    then true
    else if kind == "Service"
    then true
    else if kind == "Ingress"
    then true
    else if kind == "ConfigMap"
    then true
    else (kind == "Secret")

pub unknown_finalizers : Map Bool → List String → List String
unknown_finalizers known [] = []
unknown_finalizers known (f ∷ fs) =
    let rest = unknown_finalizers known fs in
    if is_ours f && not (is_known known f) then f ∷ rest else rest

module _ (r : Reconciler) where
  pub get_object : Key → Result Meta
  get_object k = if is_kind k.kind then r.lister k else err (errorf ("unknown key kind " <> k.kind))

  pub send_patch : Key → List String → Exec Call (Unit {0})
  send_patch k finalizers =
      if is_kind k.kind
      then request r.server (patch_finalizers k finalizers)
      else fail (errorf ("unknown key kind " <> k.kind))

  pub clean : Key → List String → Exec Call (Option ℕ)
  clean k [] = return none
  clean k (f ∷ fs) =
      try (send_patch k (f ∷ fs)) (λ e. fail (wrap ("cannot patch " <> (k.kind <> ": ")) e))
        (λ _. return none)

  abbrev pub clean_found : Key → Result Meta → Exec Call (Option ℕ)
  clean_found k (ok o) = clean k (unknown_finalizers r.known_finalizers o.finalizers)
  clean_found k (err e) =
      if is_not_found e then return none else fail (wrap ("cannot get " <> (k.kind <> ": ")) e)

  pub handle : Key → Exec Call (Option ℕ)
  unfolding clean
  handle k = clean_found k (get_object k)
