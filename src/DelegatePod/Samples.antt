-- ===== src/DelegatePod/Samples.antt =====
-- A small proxy pod, and the pod chaperon that is made of it.
use admiralty.Base.{String, ◌≡◌, refl, Bool, false, [], ◌∷◌, Map, lookup, insert, Result, ok}
use admiralty.Common.{annotation_key_source_pod_manifest}
use admiralty.Kube.{Pod, PodChaperon}
use admiralty.Kube.Samples.{sample_meta, sample_pod}
use admiralty.DelegatePod.{
  get_source_pod, changes_key, change_loop, change_labels, delegate_of, last_segment,
  make_delegate_pod, split_slash,
}

abbrev pub labels : Map String
labels = ("app", "web") ∷ ("example.com/tier", "front") ∷ ("multicluster.admiralty.io/x", "y") ∷ []

abbrev pub source : Pod
source = record (sample_pod "") {
  meta = sample_meta "u" labels (("note", "n") ∷ ("multicluster.admiralty.io/elect", "") ∷ []);
}

abbrev pub proxy : Pod
proxy = record (sample_pod "") {
  meta = sample_meta "u" [] ((annotation_key_source_pod_manifest, "manifest") ∷ []);
}

abbrev pub unmarshal : String → Result Pod
unmarshal manifest = ok source

abbrev pub compile : String → Result (String → Bool)
compile expression = ok (λ s. false)

abbrev pub made : PodChaperon
made =
    delegate_of proxy source
      (("multicluster.admiralty.io/app", "web")
        ∷ ("multicluster.admiralty.io/tier", "front")
        ∷ ("multicluster.admiralty.io/x", "y")
        ∷ [])
      "cluster"

pub makes : make_delegate_pod unmarshal compile proxy "cluster" ≡ ok made
unfolding make_delegate_pod get_source_pod change_labels change_loop lookup changes_key split_slash
    insert last_segment
makes = refl
