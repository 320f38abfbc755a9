-- ===== src/Webhook/Examples.antt =====
-- The webhook on an elected pod that has a stale finalizer, with a YAML that knows one pod.
use admiralty.Base.{◌≡◌, refl, true, none, [], ◌∷◌, All, ok, err, Error, unknown, lookup, insert}
use admiralty.Common.{annotation_key_elect, is_ours}
use admiralty.Kube.{Pod}
use admiralty.Kube.Samples.{sample_meta, sample_pod}
use admiralty.Agent.{get_all}
use admiralty.Webhook.{Mutator, default, constraints, finish}
use admiralty.Webhook.Idempotent.{SamePod, carrying, default-twice}

abbrev pod : Pod
pod = record (sample_pod "") { meta = sample_meta "u" [] ((annotation_key_elect, "") ∷ []) }

abbrev refusal : Error
refusal = record { reason = unknown; message = "not YAML" }

abbrev mutator : Mutator
mutator = record {
  known_finalizers =
      ("ns", "multicluster.admiralty.io/t1" ∷ "multicluster.admiralty.io/t2" ∷ []) ∷ [];
  marshal = λ p. ok "manifest";
  unmarshal_strict = λ s. ok pod;
  unmarshal_spec_strict = λ s. err refusal;
}

abbrev once : Pod
once = finish mutator (carrying pod "manifest") none

-- The stale finalizer goes, and those of the targets come in.
finalizers :
    once.meta.finalizers
    ≡ "a" ∷ "b" ∷ "multicluster.admiralty.io/t1" ∷ "multicluster.admiralty.io/t2" ∷ []
unfolding finish is_ours lookup
finalizers = refl

first_run : default mutator pod ≡ ok once
unfolding default lookup insert constraints
first_run = refl

ours : All (λ f. is_ours f ≡ true) (get_all "ns" mutator.known_finalizers)
unfolding lookup is_ours
ours = (refl, (refl, tt))

default-twice_example : (again : Pod) × (default mutator once ≡ ok again) × SamePod again once
default-twice_example = default-twice mutator pod once (λ s wrote. refl) ours first_run
