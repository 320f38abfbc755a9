-- ===== src/Webhook/Idempotent.antt =====
-- The webhook may run several times on one pod: the second run changes nothing.
use admiralty.Base.{
  String, ◌≡◌, refl, ap, sym, subst, ◌∙◌, true, false, Option, none, some, inl, inr, List, [], ◌∷◌,
  ◌++◌, keep, All, lookup, insert, has_key, Result, ok, err, ok_inj, arith, Bool-cases,
}
use admiralty.Common.{is_ours, annotation_key_elect, annotation_key_source_pod_manifest}
use admiralty.Kube.{PodSpec, Pod}
use admiralty.Agent.{get_all}
use admiralty.Webhook.{
  Mutator, constrain, is_foreign, new_finalizers, constraints, finish, with_constraints, mutate,
  elected, save_manifest, read_manifest, default,
}

keep-ours : (known : List String) → All (λ f. is_ours f ≡ true) known → keep is_foreign known ≡ []
keep-ours [] h = refl
keep-ours (f ∷ known) (h, hs) = ground (arith, keep-ours known hs)

new_finalizers-twice :
    (known fs : List String)
    → All (λ f. is_ours f ≡ true) known
    → new_finalizers known (new_finalizers known fs) ≡ new_finalizers known fs
new_finalizers-twice known [] h = ap (λ fs. fs ++ known) (keep-ours known h)
new_finalizers-twice known (f ∷ fs) h = ground (arith, new_finalizers-twice known fs h)

-- The same proxy pod in every field, where labels are the same if every lookup gives the same.
abbrev pub SamePod : Pod → Pod → Type 0
SamePod p q =
    ((k : String) → lookup k p.meta.labels ≡ lookup k q.meta.labels)
    × (record p.meta { labels = [] } ≡ record q.meta { labels = [] })
    × (p.spec ≡ q.spec)
    × (p.status ≡ q.status)

-- The metadata but for the labels: only the finalizers are written.
rest_of-twice :
    (m : Mutator) (pod : Pod)
    → let known = get_all pod.meta.namespace m.known_finalizers in
      All (λ f. is_ours f ≡ true) known
      → record pod.meta {
        labels = [];
        finalizers = new_finalizers known (new_finalizers known pod.meta.finalizers);
      }
        ≡ record pod.meta { labels = []; finalizers = new_finalizers known pod.meta.finalizers }
rest_of-twice m pod ours =
    ap (λ fs. record pod.meta { labels = []; finalizers = fs })
      (new_finalizers-twice _ pod.meta.finalizers ours)

finish-twice :
    (m : Mutator) (pod : Pod) (given : Option PodSpec)
    → All (λ f. is_ours f ≡ true) (get_all pod.meta.namespace m.known_finalizers)
    → SamePod (finish m (finish m pod given) given) (finish m pod given)
unfolding finish constrain lookup insert
finish-twice m pod none ours = (λ k. ground arith, rest_of-twice m pod ours, refl, refl)
finish-twice m pod (some given) ours = (λ k. ground arith, rest_of-twice m pod ours, refl, refl)

-- A proxy pod that the source pod's manifest is on: the second run of the part that follows.
module _ (m : Mutator) (src pod : Pod) where
  Repeats : Pod → Type 0
  Repeats once =
      (again : Pod) × (mutate m src once ≡ ok again)
      × SamePod again once
      × (once.meta.annotations ≡ pod.meta.annotations)

  mutate-Repeats :
      (once : Pod)
      → All (λ f. is_ours f ≡ true) (get_all pod.meta.namespace m.known_finalizers)
      → mutate m src pod ≡ ok once
      → Repeats once
  unfolding Repeats constraints finish
  mutate-Repeats once ours e = go (constraints m src pod.meta.annotations) refl e
    where
      finished :
          (given : Option PodSpec)
          → constraints m src pod.meta.annotations ≡ ok given
          → Repeats (finish m pod given)
      finished given c =
          (finish m (finish m pod given) given, rw c refl, finish-twice m pod given ours, refl)

      go :
          (r : Result (Option PodSpec))
          → constraints m src pod.meta.annotations ≡ r
          → with_constraints m pod r ≡ ok once
          → Repeats once
      go (err x) c e = cc
      go (ok given) c e = subst Repeats (ok_inj e) (finished given c)

abbrev pub carrying : Pod → String → Pod
carrying pod s = record pod {
  meta = record pod.meta {
    annotations = insert annotation_key_source_pod_manifest s pod.meta.annotations;
  };
}

still :
    (pod : Pod) (s : String)
    → has_key annotation_key_elect pod.meta.annotations ≡ true
    → has_key annotation_key_elect (carrying pod s).meta.annotations ≡ true
unfolding lookup insert
still pod s chosen = chosen

found :
    (pod : Pod) (s : String)
    → lookup annotation_key_source_pod_manifest (carrying pod s).meta.annotations ≡ some s
unfolding lookup insert
found pod s = refl

default-elected :
    (m : Mutator) (p src : Pod) (s : String)
    → has_key annotation_key_elect p.meta.annotations ≡ true
    → lookup annotation_key_source_pod_manifest p.meta.annotations ≡ some s
    → m.unmarshal_strict s ≡ ok src
    → default m p ≡ mutate m src p
unfolding default constraints
default-elected m p src s chosen saved read = rw (chosen, saved, read, default) refl

repeat :
    (m : Mutator) (src pod once : Pod) (s : String)
    → has_key annotation_key_elect pod.meta.annotations ≡ true
    → lookup annotation_key_source_pod_manifest pod.meta.annotations ≡ some s
    → m.unmarshal_strict s ≡ ok src
    → Repeats m src pod once
    → (again : Pod) × (default m once ≡ ok again) × SamePod again once
unfolding Repeats
repeat m src pod once s chosen saved read (again, mutated, same, kept) = (
  again,
  default-elected m once src s
        (subst (λ a. has_key annotation_key_elect a ≡ true) (sym kept) chosen)
        (subst (λ a. lookup annotation_key_source_pod_manifest a ≡ some s) (sym kept) saved) read
      ∙ mutated,
  same,
)

-- Where YAML reads back the manifest that it writes of the pod and the known finalizers are this program's, a
-- second run of the webhook on the pod of a first run succeeds and gives the same pod: the same metadata,
-- specification and status, but perhaps for the order of its labels.
pub default-twice :
    (m : Mutator) (pod once : Pod)
    → ((s : String) → m.marshal pod ≡ ok s → m.unmarshal_strict s ≡ ok pod)
    → All (λ f. is_ours f ≡ true) (get_all pod.meta.namespace m.known_finalizers)
    → default m pod ≡ ok once
    → (again : Pod) × (default m once ≡ ok again) × SamePod again once
unfolding default lookup
default-twice m pod once reads ours e =
    elim (Bool-cases (has_key annotation_key_elect pod.meta.annotations)) [
      | inl chosen ↦ second chosen _ refl (sym (rw (chosen, default) refl) ∙ e)
      | inr plain ↦ unchanged plain (sym (rw (plain, default) refl) ∙ e)
    ]
  where
    Twice : Type 0
    Twice = (again : Pod) × (default m once ≡ ok again) × SamePod again once

    unchanged : has_key annotation_key_elect pod.meta.annotations ≡ false → ok pod ≡ ok once → Twice
    unchanged plain same =
        (once, subst (λ p. default m p ≡ ok once) (ok_inj same) e, (λ k. refl, refl, refl, refl))

    read :
        has_key annotation_key_elect pod.meta.annotations ≡ true
        → (s : String) (r : Result Pod)
        → lookup annotation_key_source_pod_manifest pod.meta.annotations ≡ some s
        → m.unmarshal_strict s ≡ r
        → read_manifest m pod r ≡ ok once
        → Twice
    read chosen s (err x) saved got made = cc
    read chosen s (ok src) saved got made =
        repeat m src pod once s chosen saved got (mutate-Repeats m src pod once ours made)

    save :
        has_key annotation_key_elect pod.meta.annotations ≡ true
        → (r : Result String) → m.marshal pod ≡ r
        → save_manifest m pod r ≡ ok once
        → Twice
    save chosen (err x) got made = cc
    save chosen (ok s) got made =
        repeat m pod (carrying pod s) once s (still pod s chosen) (found pod s) (reads s got)
          (mutate-Repeats m pod (carrying pod s) once ours made)

    second :
        has_key annotation_key_elect pod.meta.annotations ≡ true
        → (saved : Option String)
        → lookup annotation_key_source_pod_manifest pod.meta.annotations ≡ saved
        → elected m pod saved ≡ ok once
        → Twice
    second chosen none missing made = save chosen _ refl made
    second chosen (some s) saved made = read chosen s _ saved refl made
