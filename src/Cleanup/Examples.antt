-- ===== src/Cleanup/Examples.antt =====
-- A pod with a finalizer of a known target, one of an unknown target and one of another program.
use admiralty.Base.{String, ◌≡◌, refl, List, [], ◌∷◌, Result, ok, calls}
use admiralty.Common.{is_ours}
use admiralty.Kube.{Meta}
use admiralty.Kube.Samples.{sample_meta}
use admiralty.Cleanup.{Key, Call, Answer, patch_finalizers, Reconciler, know, handle}
use admiralty.Cleanup.Unknown.{stale, patches, handle-patches}

abbrev known : List String
known = "multicluster.admiralty.io/k" ∷ []

abbrev object : Meta
object = record (sample_meta "u" [] []) {
  finalizers = "a" ∷ "multicluster.admiralty.io/t" ∷ "multicluster.admiralty.io/k" ∷ [];
}

abbrev server : (log : List Call) (c : Call) → Result (Answer c)
server log (patch_finalizers k finalizers) = ok tt

abbrev reconciler : Reconciler
reconciler = record { server = server; lister = λ k. ok object; known_finalizers = know known }

abbrev pod_key : Key
pod_key = record { kind = "Pod"; namespace = "ns"; name = "p" }

takes_one : stale known object.finalizers ≡ "multicluster.admiralty.io/t" ∷ []
unfolding is_ours
takes_one = refl

handle-patches_example :
    calls (handle reconciler pod_key) ≡ patches pod_key (stale known object.finalizers)
handle-patches_example = handle-patches reconciler known pod_key object refl refl refl
