-- ===== src/Restarter.antt =====
-- pkg/controllers/target/controller.go: the restarter remembers the specifications of all targets and
-- the data of their kubeconfig secrets, and restarts two deployments when these change. The two patches
-- are sent by concurrent goroutines, in one of two orders: which one is a parameter. The listers, the
-- API server and `reflect.DeepEqual` are parameters too, in the record `Reconciler`. A nil map of the
-- memory is `none`: it equals no map.
pub mod Restarts
pub mod Events
mod Examples
use admiralty.Base.{
  ℕ, String, ◌<>◌, Bool, true, false, not, ◌&&◌, ◌||◌, Option, none, some, List, [], ◌∷◌, Map,
  insert, if◌then◌else◌, Result, ok, err, Error, is_not_found, Exec, return, fail, lift, send, try,
  ◌>>=◌,
}
use admiralty.Kube.{Meta}

pub record SecretReference : Type 0 where
  pub name : String
  pub namespace : String

-- A target or a cluster target. A target's secret is in its own namespace: its reference has none.
pub record TargetObject : Type 0 where
  pub meta : Meta
  pub kubeconfig_secret : Option SecretReference
  pub other : String  -- the other fields of the specification

-- Patch of the deployment of that name
pub data Call : Type 0 where
  restart : String → Call

abbrev pub Specs : Type 0
Specs = Map (Option SecretReference × String)

abbrev pub Data : Type 0
Data = Map (Map String)

pub record Memory : Type 0 where
  pub target_specs : Option Specs
  pub kubeconfig_secret_data : Option Data

pub record Reconciler : Type 0 where
  pub server : List Call → Call → Result (Unit {0})
  pub cluster_target_lister : Result (List TargetObject)
  pub target_lister : Result (List TargetObject)
  pub secret_lister : String → String → Result (Map String)
  pub same_specs : Specs → Specs → Bool
  pub same_data : Data → Data → Bool
  pub controller_manager_deployment_name : String
  pub proxy_scheduler_deployment_name : String
  pub manager_first : Bool

-- The keys of the two indices of targets by their secrets
pub cluster_target_by_kubeconfig_secret : TargetObject → List String
cluster_target_by_kubeconfig_secret ct = elim ct.kubeconfig_secret [
  | none ↦ []
  | some s ↦ (s.namespace <> ("/" <> s.name)) ∷ []
]

pub target_by_kubeconfig_secret : TargetObject → List String
target_by_kubeconfig_secret t = elim t.kubeconfig_secret [
  | none ↦ []
  | some s ↦ (t.meta.namespace <> ("/" <> s.name)) ∷ []
]

abbrev pub key_of : TargetObject → String
key_of t = t.meta.namespace <> ("/" <> t.meta.name)

abbrev spec_of : TargetObject → Option SecretReference × String
spec_of t = (t.kubeconfig_secret, t.other)

abbrev collect_specs : Specs → List TargetObject → Specs
collect_specs specs [] = specs
collect_specs specs (t ∷ ts) = collect_specs (insert (key_of t) (spec_of t) specs) ts

module _ (r : Reconciler) where
  -- The data of a target's secret, or none if it has no secret or that is missing.
  abbrev pub secret_data :
      (TargetObject → SecretReference → String) → TargetObject → Result (Option (Map String))
  secret_data namespace_of t = elim t.kubeconfig_secret [
    | none ↦ ok none
    | some s ↦ elim (r.secret_lister (namespace_of t s) s.name) [
      | ok contents ↦ ok (some contents)
      | err e ↦ if is_not_found e then ok none else err e
    ]
  ]

  abbrev pub add_data : String → Option (Map String) → Data → Data
  add_data key none memory = memory
  add_data key (some contents) memory = insert key contents memory

  -- A loop of `Handle` over targets. The first secret that cannot be read ends it.
  pub collect_data :
      (TargetObject → SecretReference → String) → Data → List TargetObject → Result Data
  collect_data namespace_of memory [] = ok memory
  collect_data namespace_of memory (t ∷ ts) = elim (secret_data namespace_of t) [
    | err e ↦ err e
    | ok contents ↦ collect_data namespace_of (add_data (key_of t) contents memory) ts
  ]

  pub same_specs_as : Option Specs → Specs → Bool
  same_specs_as none specs = false
  same_specs_as (some old) specs = r.same_specs old specs

  pub same_data_as : Option Data → Data → Bool
  same_data_as none memory = false
  same_data_as (some old) memory = r.same_data old memory

  abbrev pub patch : String → Exec Call (Unit {0})
  patch name = send (restart name) (λ log. r.server log (restart name))

  -- Both goroutines run to their end; then the first error, if any, is returned.
  abbrev pub wait_both : String → String → Exec Call (Unit {0})
  wait_both first second =
      try (patch first) (λ e. try (patch second) (λ e'. fail e) (λ _. fail e)) (λ _. patch second)

  pub restart_all : Exec Call (Unit {0})
  restart_all =
      if r.manager_first
      then wait_both r.controller_manager_deployment_name r.proxy_scheduler_deployment_name
      else wait_both r.proxy_scheduler_deployment_name r.controller_manager_deployment_name

  abbrev pub remember : Memory → Specs → Data → Exec Call Memory
  remember memory specs contents =
      if not (same_specs_as memory.target_specs specs)
        || not (same_data_as memory.kubeconfig_secret_data contents)
      then (restart_all >>= λ _.
          return (record { target_specs = some specs; kubeconfig_secret_data = some contents }))
      else return memory

  -- The maps that `Handle` builds from the two lists.
  pub observed_specs : List TargetObject → List TargetObject → Specs
  observed_specs cluster_targets targets = collect_specs (collect_specs [] cluster_targets) targets

  pub observed_data : List TargetObject → List TargetObject → Result Data
  unfolding collect_data
  observed_data cluster_targets targets =
      elim (collect_data (λ t s. s.namespace) [] cluster_targets) [
        | err e ↦ err e
        | ok contents ↦ collect_data (λ t s. t.meta.namespace) contents targets
      ]

  -- The memory after a pass that returns no error; after one that does, it is as it was.
  pub handle : Memory → Exec Call Memory
  unfolding same_specs_as same_data_as restart_all observed_specs observed_data
  handle memory = lift r.cluster_target_lister >>= λ cluster_targets.
      lift r.target_lister >>= λ targets.
      lift (observed_data cluster_targets targets) >>= λ contents.
      remember memory (observed_specs cluster_targets targets) contents
