-- ===== src/Restarter/Events.antt =====
-- The events that the restarter's controller handles: those of targets and cluster targets, and
-- those of their kubeconfig secrets, which it finds the targets of by two indices. A pass looks at no
-- key, so it matters only whether there is one.
use admiralty.Base.{
  String, ◌<>◌, ◌≡◌, ◌≢◌, refl, sym, ◌∙◌, ◌⊎◌, inl, inr, Option-cases, Bool-cases, Bool, true,
  false, any, keep, Option, none, some, List, [], ◌∷◌, ◌++◌, ◌==◌, eq_refl, Result, ok, err, Map,
}
use admiralty.Kube.{Meta}
use admiralty.Controller.{Event, handle_all_with}
use admiralty.Controller.Events.{Keys, IsLawful, on_add_update, on_all, enqueue, enqueue_total}
use admiralty.Restarter.{
  TargetObject, SecretReference, Reconciler, Data, cluster_target_by_kubeconfig_secret,
  target_by_kubeconfig_secret, secret_data, add_data, key_of, collect_data, observed_data,
}

-- The events of the informers that `NewController` registers handlers with.
pub data Watched : Type 0 where
  of_cluster_target : Event TargetObject → Watched
  of_target : Event TargetObject → Watched
  of_secret : Event Meta → Watched

-- `ByIndex` of the two indices
pub record Indices : Type 0 where
  pub cluster_targets : String → List TargetObject
  pub targets : String → List TargetObject

abbrev enqueue_each : Keys → List TargetObject → List String
enqueue_each keys [] = []
enqueue_each keys (t ∷ ts) = enqueue keys t.meta ++ enqueue_each keys ts

module _ (keys : Keys) (indices : Indices) where
  abbrev enqueue_targets_of : Meta → List String
  enqueue_targets_of secret =
      enqueue_each keys (indices.cluster_targets (secret.namespace <> ("/" <> secret.name)))
      ++ enqueue_each keys (indices.targets (secret.namespace <> ("/" <> secret.name)))

  unfoldable pub enqueued : Watched → List String
  enqueued (of_cluster_target event) = on_add_update (λ t. enqueue keys t.meta) event
  enqueued (of_target event) = on_add_update (λ t. enqueue keys t.meta) event
  enqueued (of_secret event) = on_all enqueue_targets_of event

-- `cache.Indexer`: the objects that an index function files under a key.
abbrev pub files_under : (TargetObject → List String) → String → TargetObject → Bool
files_under index key t = any (λ k. k == key) (index t)

abbrev pub Indexes : Indices → List TargetObject → List TargetObject → Type 0
Indexes indices cluster_targets targets =
    (key : String)
    → (indices.cluster_targets key
        ≡ keep (files_under cluster_target_by_kubeconfig_secret key) cluster_targets)
      × (indices.targets key ≡ keep (files_under target_by_kubeconfig_secret key) targets)

-- Every target has a key, so nothing is put on the queue only where there is none.
enqueue_each-nil :
    (keys : Keys) (ts : List TargetObject) → IsLawful keys → enqueue_each keys ts ≡ [] → ts ≡ []
enqueue_each-nil keys [] law silent = refl
enqueue_each-nil keys (t ∷ ts) law silent =
    let (key, one) = enqueue_total keys t.meta law in
    absurd (cons-ne-nil key (enqueue_each keys ts) (rw one at silent))
  where
    cons-ne-nil : (key : String) (more : List String) → key ∷ more ≢ []
    cons-ne-nil key more e = cc

keep-nil :
    {A : Type 0} (p : A → Bool) (x : A) (xs : List A)
    → keep p (x ∷ xs) ≡ []
    → (p x ≡ false) × (keep p xs ≡ [])
keep-nil p x xs e = elim (Bool-cases (p x)) [
  | inl yes_case ↦ absurd (cons (rw (yes_case, keep) at e))
  | inr no_case ↦ (no_case, rw (no_case, keep) at e)
]
  where
    cons : x ∷ keep p xs ≢ []
    cons e = cc

append-nil_inv : {A : Type 0} (xs ys : List A) → xs ++ ys ≡ [] → (xs ≡ []) × (ys ≡ [])
append-nil_inv [] ys e = (refl, e)
append-nil_inv (x ∷ xs) ys e = absurd (cc)

module _ (r : Reconciler) (other : String → String → Result (Map String))
    (namespace name : String) where
  -- The secret lister with other data for one secret.
  abbrev pub AgreesElsewhere : Type 0
  AgreesElsewhere =
      (namespace' name' : String)
      → (r.secret_lister namespace' name' ≡ other namespace' name')
        ⊎ ((namespace' ≡ namespace) × (name' ≡ name))

  abbrev pub changed : Reconciler
  changed = record r { secret_lister = other }

  module _ (namespace_of : TargetObject → SecretReference → String)
      (index : TargetObject → List String)
      (filed : (t : TargetObject) (s : SecretReference)
        → t.kubeconfig_secret ≡ some s
        → index t ≡ (namespace_of t s <> ("/" <> s.name)) ∷ []) where
    secret_data-same :
        (t : TargetObject)
        → AgreesElsewhere
        → files_under index (namespace <> ("/" <> name)) t ≡ false
        → secret_data r namespace_of t ≡ secret_data changed namespace_of t
    secret_data-same t agree unfiled = look (Option-cases t.kubeconfig_secret)
      where
        never :
            (s : SecretReference)
            → t.kubeconfig_secret ≡ some s
            → namespace_of t s ≡ namespace
            → s.name ≡ name
            → ⊥
        never s e n m =
            let hit : files_under index (namespace <> ("/" <> name)) t ≡ true =
              rw (filed t s e, n, m, eq_refl (namespace <> ("/" <> name))) refl in
            cc

        look :
            (t.kubeconfig_secret ≡ none) ⊎ ((s : SecretReference) × (t.kubeconfig_secret ≡ some s))
            → secret_data r namespace_of t ≡ secret_data changed namespace_of t
        look (inl e) = rw (e, secret_data) refl
        look (inr (s, e)) = elim (agree (namespace_of t s) s.name) [
          | inl same ↦ rw (e, secret_data) (rw same refl)
          | inr (n, m) ↦ absurd (never s e n m)
        ]

    collect_data-same :
        (ts : List TargetObject) (memory : Data)
        → AgreesElsewhere
        → keep (files_under index (namespace <> ("/" <> name))) ts ≡ []
        → collect_data r namespace_of memory ts ≡ collect_data changed namespace_of memory ts
    unfolding collect_data
    collect_data-same [] memory agree none_filed = refl
    collect_data-same (t ∷ ts) memory agree none_filed =
        let (unfiled, rest) =
          keep-nil (files_under index (namespace <> ("/" <> name))) t ts none_filed in
        rw (secret_data-same t agree unfiled, collect_data)
          (go (secret_data changed namespace_of t)
            (λ memory. collect_data-same ts memory agree rest))
      where
        go :
            (found : Result (Option (Map String)))
            → ((memory : Data)
                → collect_data r namespace_of memory ts
                  ≡ collect_data changed namespace_of memory ts)
            → (elim found as (λ _. Result Data) [
              | err e ↦ err e
              | ok contents ↦ collect_data r namespace_of (add_data r (key_of t) contents memory) ts
            ])
              ≡ (elim found as (λ _. Result Data) [
                | err e ↦ err e
                | ok contents ↦
                    collect_data changed namespace_of (add_data r (key_of t) contents memory) ts
              ])
        go (err e) below = refl
        go (ok contents) below = below (add_data r (key_of t) contents memory)

cluster_target-filed :
    (t : TargetObject) (s : SecretReference)
    → t.kubeconfig_secret ≡ some s
    → cluster_target_by_kubeconfig_secret t ≡ (s.namespace <> ("/" <> s.name)) ∷ []
unfolding cluster_target_by_kubeconfig_secret
cluster_target-filed t s e = rw (e, cluster_target_by_kubeconfig_secret) refl

target-filed :
    (t : TargetObject) (s : SecretReference)
    → t.kubeconfig_secret ≡ some s
    → target_by_kubeconfig_secret t ≡ (t.meta.namespace <> ("/" <> s.name)) ∷ []
unfolding target_by_kubeconfig_secret
target-filed t s e = rw (e, target_by_kubeconfig_secret) refl

-- No lost change of a secret. The lister of `changed` answers as that of `r`, but for one secret: if
-- an event of that secret puts no key on the queue, then a pass that sees the same targets reads the
-- same data.
pub observed_data-unless_enqueued :
    (keys : Keys) (indices : Indices) (r : Reconciler)
    (other : String → String → Result (Map String)) (secret : Meta) (event : Event Meta)
    (cluster_targets targets : List TargetObject)
    → IsLawful keys
    → Indexes indices cluster_targets targets
    → AgreesElsewhere r other secret.namespace secret.name
    → handle_all_with event ≡ some secret
    → enqueued keys indices (of_secret event) ≡ []
    → observed_data r cluster_targets targets
      ≡ observed_data (record r { secret_lister = other }) cluster_targets targets
unfolding enqueued observed_data
observed_data-unless_enqueued keys indices r other secret event cluster_targets targets law indexed
      agree handed silent =
    let key : String = secret.namespace <> ("/" <> secret.name) in
    let (no_clusters, no_targets) =
      append-nil_inv (enqueue_each keys (indices.cluster_targets key)) _ (rw handed at silent) in
    let clusters_same =
      collect_data-same r other secret.namespace secret.name (λ t s. s.namespace)
        cluster_target_by_kubeconfig_secret cluster_target-filed cluster_targets [] agree
        (sym (indexed key).0 ∙ enqueue_each-nil keys _ law no_clusters) in
    let targets_same = λ (memory : Data).
      collect_data-same r other secret.namespace secret.name (λ t s. t.meta.namespace)
        target_by_kubeconfig_secret target-filed targets memory agree
        (sym (indexed key).1 ∙ enqueue_each-nil keys _ law no_targets) in
    rw (clusters_same, observed_data)
      (go (collect_data changed_lister (λ t s. s.namespace) [] cluster_targets) targets_same)
  where
    changed_lister : Reconciler
    changed_lister = record r { secret_lister = other }

    go :
        (found : Result Data)
        → ((memory : Data)
            → collect_data r (λ t s. t.meta.namespace) memory targets
              ≡ collect_data changed_lister (λ t s. t.meta.namespace) memory targets)
        → (elim found as (λ _. Result Data) [
          | err e ↦ err e
          | ok contents ↦ collect_data r (λ t s. t.meta.namespace) contents targets
        ])
          ≡ (elim found as (λ _. Result Data) [
            | err e ↦ err e
            | ok contents ↦ collect_data changed_lister (λ t s. t.meta.namespace) contents targets
          ])
    go (err e) below = refl
    go (ok contents) below = below contents
