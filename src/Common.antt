-- ===== src/Common.antt =====
-- pkg/common: the well-known keys, and the split of labels and annotations by their prefix.
pub mod Split
pub mod Merge
mod Examples
use admiralty.Base.{
  String, ◌<>◌, Bool, not, [], ◌∷◌, Map, insert, copy_into, deep_equal, text_eq, starts_with,
  if◌then◌else◌,
}

-- pkg/common/constants.go
abbrev pub proxy_scheduler_name : String
proxy_scheduler_name = "admiralty-proxy"

abbrev pub candidate_scheduler_name : String
candidate_scheduler_name = "admiralty-candidate"

abbrev pub label_and_taint_key_virtual_kubelet_provider : String
label_and_taint_key_virtual_kubelet_provider = "virtual-kubelet.io/provider"

abbrev pub virtual_kubelet_provider_name : String
virtual_kubelet_provider_name = "admiralty"

abbrev pub key_prefix : String
key_prefix = "multicluster.admiralty.io/"

abbrev pub annotation_key_elect : String
annotation_key_elect = key_prefix <> "elect"

abbrev pub annotation_key_no_reservation : String
annotation_key_no_reservation = key_prefix <> "no-reservation"

abbrev pub annotation_key_proxy_pod_scheduling_constraints : String
annotation_key_proxy_pod_scheduling_constraints = key_prefix <> "proxy-pod-scheduling-constraints"

abbrev pub annotation_key_use_constraints_from_spec_for_proxy_pod_scheduling : String
annotation_key_use_constraints_from_spec_for_proxy_pod_scheduling =
    key_prefix <> "use-constraints-from-spec-for-proxy-pod-scheduling"

abbrev pub annotation_no_prefix_label_regexp : String
annotation_no_prefix_label_regexp = key_prefix <> "no-prefix-label-regexp"

abbrev pub annotation_key_source_pod_manifest : String
annotation_key_source_pod_manifest = key_prefix <> "sourcepod-manifest"

abbrev pub annotation_key_is_reserved : String
annotation_key_is_reserved = key_prefix <> "is-reserved"

abbrev pub annotation_key_is_allowed : String
annotation_key_is_allowed = key_prefix <> "is-allowed"

abbrev pub annotation_key_pod_missing_since : String
annotation_key_pod_missing_since = key_prefix <> "pod-missing-since"

abbrev pub label_key_has_finalizer : String
label_key_has_finalizer = key_prefix <> "has-finalizer"

abbrev pub label_key_parent_cluster_name : String
label_key_parent_cluster_name = key_prefix <> "parent-cluster-name"

abbrev pub label_key_parent_uid : String
label_key_parent_uid = key_prefix <> "parent-uid"

abbrev pub annotation_key_parent_name : String
annotation_key_parent_name = key_prefix <> "parent-name"

abbrev pub annotation_key_parent_namespace : String
annotation_key_parent_namespace = key_prefix <> "parent-namespace"

abbrev pub annotation_key_global : String
annotation_key_global = key_prefix <> "global"

abbrev pub annotation_key_is_delegate : String
annotation_key_is_delegate = key_prefix <> "is-delegate"

abbrev pub annotation_key_cilium_global_service : String
annotation_key_cilium_global_service = "io.cilium/global-service"

abbrev pub annotation_key_original_selector : String
annotation_key_original_selector = key_prefix <> "original-selector"

abbrev annotation_key_restarted_at : String
annotation_key_restarted_at = key_prefix <> "restartedAt"

abbrev pub label_key_target_namespace : String
label_key_target_namespace = key_prefix <> "target-namespace"

abbrev pub label_key_target_name : String
label_key_target_name = key_prefix <> "target-name"

abbrev pub label_key_cluster_target_name : String
label_key_cluster_target_name = key_prefix <> "cluster-target-name"

-- strings.HasPrefix(k, KeyPrefix)
unfoldable pub is_ours : String → Bool
is_ours k = starts_with k key_prefix

-- pkg/common/util.go: the labels or annotations of this program, and the others
unfoldable pub split_labels_or_annotations : Map String → Map String × Map String
unfolding is_ours
split_labels_or_annotations [] = ([], [])
split_labels_or_annotations ((k, v) ∷ m) =
    let (mc, other) = split_labels_or_annotations m in
    if is_ours k then (insert k v mc, other) else (mc, insert k v other)

-- How the feedback and the chaperon controllers bring annotations from one object to another: the
-- receiver keeps those with this program's prefix, and takes the others of the giver.
unfoldable pub merged_annotations : Map String → Map String → Map String
merged_annotations receiver giver =
    let (mc, _) = split_labels_or_annotations receiver in
    let (_, other) = split_labels_or_annotations giver in copy_into mc other

-- !reflect.DeepEqual on the other annotations of both
unfoldable pub need_update : Map String → Map String → Bool
need_update receiver giver =
    let (_, other_receiver) = split_labels_or_annotations receiver in
    let (_, other_giver) = split_labels_or_annotations giver in
    not (deep_equal text_eq other_receiver other_giver)
