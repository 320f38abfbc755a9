-- ===== src/Removal.antt =====
-- cmd/remove-finalizers/main.go: the hook after an uninstallation, which takes this program's finalizers
-- off every object that is labelled as having one. The five methods of `patchAll` have one body, for
-- pods, services, config maps, secrets and ingresses; the API server is a parameter. An error ends the
-- program: `utilruntime.Must` panics.
pub mod Clean
pub mod Frees
mod Examples
use admiralty.Base.{
  String, ◌<>◌, Bool, true, false, Option, none, some, List, [], ◌∷◌, ◌++◌, if◌then◌else◌, Result,
  ok, err, Exec, return, send, ◌>>=◌, keep,
}
use admiralty.Common.{is_ours, label_key_has_finalizer}
use admiralty.Kube.{Meta}

pub data Kind : Type 0 where
  pods services config_maps secrets ingresses : Kind

-- List of all namespaces with a label selector; Patch in a namespace of the object of a name.
pub data Call : Type 0 where
  list_all : Kind → String → Call
  patch_object : Kind → String → String → String → Call

pub record Server : Type 0 where
  pub list : (log : List Call) (kind : Kind) → Result (List Meta)
  pub patched : (log : List Call) (c : Call) → Result (Unit {0})

-- The inner loop: this program's finalizers
pub our_finalizers : List String → List String
our_finalizers [] = []
our_finalizers (f ∷ finalizers) =
    let rest = our_finalizers finalizers in if is_ours f then f ∷ rest else rest

-- strings.Join
abbrev pub join : String → List String → String
join sep [] = ""
join sep (s ∷ []) = s
join sep (s ∷ t ∷ texts) = s <> (sep <> join sep (t ∷ texts))

pub patch : List String → String
patch finalizers =
    "{\"metadata\":{\"$deleteFromPrimitiveList/finalizers\":[\""
    <> (join "\",\"" finalizers <> "\"]}}")

module _ (server : Server) where
  abbrev pub patch_of : Kind → Meta → Call
  patch_of kind o = patch_object kind o.namespace o.name (patch (our_finalizers o.finalizers))

  pub patch_each : Kind → List Meta → Exec Call (Unit {0})
  unfolding patch our_finalizers
  patch_each kind [] = return tt
  patch_each kind (o ∷ items) =
      send (patch_of kind o) (λ log. server.patched log (patch_of kind o)) >>= λ _.
      patch_each kind items

  -- patchPods, patchServices, patchConfigMaps, patchSecrets and patchIngresses
  pub patch_kind : Kind → Exec Call (Unit {0})
  unfolding patch_each
  patch_kind kind =
      send (list_all kind label_key_has_finalizer) (λ log. server.list log kind) >>= patch_each kind

  main : Exec Call (Unit {0})
  unfolding patch_kind
  main = patch_kind pods >>= λ _. patch_kind services >>= λ _.
      patch_kind config_maps >>= λ _. patch_kind secrets >>= λ _. patch_kind ingresses
