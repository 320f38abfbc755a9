-- ===== src/DelegatePod.antt =====
-- pkg/model/proxypod and pkg/model/delegatepod: from a proxy pod, which carries the manifest of its
-- source pod, to the pod chaperon that stands for it in a target cluster. `yaml.Unmarshal` and
-- Go's regular expressions are parameters: `unmarshal`, and `compile`, which gives the matcher of
-- an expression.
pub mod Labels
pub mod Make
pub mod Samples
mod Examples
use Prim.Native.Char.{code}
use admiralty.Base.{
  ℕ, suc, String, ◌<>◌, Bool, true, false, not, ◌&&◌, ◌||◌, Option, none, some, List, [], ◌∷◌, Map,
  lookup, get, insert, has_key, remove_at, eqb, ◌==◌, if◌then◌else◌, Result, ok, err, Error, errorf,
  wrap,
}
use admiralty.Common.{
  key_prefix, is_ours, proxy_scheduler_name, candidate_scheduler_name,
  annotation_key_source_pod_manifest, annotation_no_prefix_label_regexp,
  annotation_key_use_constraints_from_spec_for_proxy_pod_scheduling, annotation_key_no_reservation,
}
use admiralty.Kube.{Meta, VolumeMount, Container, Volume, PodSpec, PodStatus, Pod, PodChaperon}
use admiralty.Controller.{add_remote_controller_reference}

-- proxypod/model.go
unfoldable pub is_proxy : Pod → Bool
is_proxy pod = pod.spec.scheduler_name == proxy_scheduler_name

pub get_source_pod : (String → Result Pod) → Pod → Result Pod
get_source_pod unmarshal proxy_pod =
    elim (lookup annotation_key_source_pod_manifest proxy_pod.meta.annotations) [
      | none ↦ err (errorf "no source pod manifest on proxy pod")
      | some manifest ↦ elim (unmarshal manifest) [
        | ok pod ↦ ok pod
        | err e ↦ err (wrap "cannot unmarshal source pod manifest: " e)
      ]
    ]

unfoldable pub get_scheduled_cluster_name : Pod → String
get_scheduled_cluster_name proxy_pod = proxy_pod.spec.node_name

-- delegatepod/model.go
is_delegate : Pod → Bool
is_delegate pod = pod.spec.scheduler_name == candidate_scheduler_name

-- strings.Split(k, "/"): the first segment and the others
abbrev pub slash : ℕ
slash = b'/'

unfoldable pub split_slash : String → String × List String
split_slash String.[] = (String.[], [])
split_slash (String.◌∷◌ c s) =
    let (first, others) = split_slash s in
    if eqb (code c) slash then (String.[], first ∷ others) else (String.◌∷◌ c first, others)

-- keySplit[len(keySplit)-1]
abbrev last_of : String → List String → String
last_of first [] = first
last_of first (s ∷ others) = last_of s others

unfoldable pub last_segment : String → String
last_segment k = let (first, others) = split_slash k in last_of first others

abbrev is_one : List String → Bool
is_one [] = true
is_one (s ∷ others) = false

-- len(keySplit) == 1 || keySplit[0] != common.KeyPrefix
unfoldable pub changes_key : String → Bool
changes_key k = let (first, others) = split_slash k in is_one others || not (first == key_prefix)

-- The loop of `ChangeLabels`. Labels whose new keys are equal overwrite one another.
unfoldable pub change_loop : (String → String → Bool) → Map String → Map String × Bool
change_loop keeps [] = ([], false)
change_loop keeps ((k, v) ∷ labels) =
    let (new_labels, changed) = change_loop keeps labels in
    if keeps k v
    then (insert k v new_labels, changed)
    else if changes_key k
    then (insert (key_prefix <> last_segment k) v new_labels, true)
    else (insert k v new_labels, changed)

module _ (compile : String → Result (String → Bool)) where
  -- len(noPrefixLabelRegex) > 0 && re.MatchString(k=v)
  abbrev keeps_label : String → (String → Bool) → String → String → Bool
  keeps_label no_prefix_label_regex matches k v =
      not (no_prefix_label_regex == "") && matches (k <> ("=" <> v))

  unfoldable pub change_labels : Map String → String → Result (Map String × Bool)
  change_labels labels no_prefix_label_regex = elim (compile no_prefix_label_regex) [
    | err e ↦ err (wrap ("failed to complie regexp " <> (no_prefix_label_regex <> ": ")) e)
    | ok matches ↦ ok (change_loop (keeps_label no_prefix_label_regex matches) labels)
  ]

abbrev pub account_path : String
account_path = "/var/run/secrets/kubernetes.io/serviceaccount"

-- The inner loop of `removeServiceAccount`: the index and the name of the first mount at the path.
pub find_mount : List VolumeMount → Option (ℕ × String)
find_mount [] = none
find_mount (m ∷ mounts) =
    let rest = find_mount mounts in
    if m.mount_path == account_path
    then some (0, m.name)
    else elim rest [ none ↦ none | some (j, name) ↦ some (suc j, name) ]

abbrev drop_mount : Option (ℕ × String) → Container → Container
drop_mount none c = c
drop_mount (some (j, name)) c = record c { volume_mounts = remove_at j c.volume_mounts }

abbrev found_secret : Option (ℕ × String) → String → String
found_secret none secret = secret
found_secret (some (j, name)) secret = name

-- The outer loop, over the containers or the init containers: the name of the secret's volume,
-- as it was before or as found last.
strip_containers : String → List Container → String × List Container
strip_containers secret [] = (secret, [])
strip_containers secret (c ∷ containers) =
    let found = find_mount c.volume_mounts in
    let (last, others) = strip_containers (found_secret found secret) containers in
    (last, drop_mount found c ∷ others)

-- The index of the first volume of that name.
find_volume : String → List Volume → Option ℕ
find_volume secret [] = none
find_volume secret (v ∷ volumes) =
    let rest = find_volume secret volumes in
    if v.name == secret then some 0 else elim rest [ none ↦ none | some j ↦ some (suc j) ]

abbrev drop_volume : Option ℕ → List Volume → List Volume
drop_volume none volumes = volumes
drop_volume (some j) volumes = remove_at j volumes

pub remove_service_account : PodSpec → PodSpec
unfolding strip_containers find_volume
remove_service_account spec =
    let (secret, containers) = strip_containers "" spec.containers in
    let (secret', init_containers) = strip_containers secret spec.init_containers in
    record spec {
      containers = containers;
      init_containers = init_containers;
      volumes = drop_volume (find_volume secret' spec.volumes) spec.volumes;
    }

-- The user's annotations: those without this program's prefix.
pub user_annotations : Map String → Map String
user_annotations [] = []
user_annotations ((k, v) ∷ m) =
    let rest = user_annotations m in if is_ours k then rest else insert k v rest

-- The scheduling constraints are dropped where the proxy pod's scheduling uses them.
pub drop_constraints : Bool → PodSpec → PodSpec
drop_constraints false spec = spec
drop_constraints true spec = record spec {
  node_selector = [];
  tolerations = [];
  affinity = none;
  topology_spread_constraints = [];
}

pub set_scheduler : Bool → PodSpec → PodSpec
set_scheduler true spec = spec
set_scheduler false spec = record spec { scheduler_name = candidate_scheduler_name }

abbrev no_status : PodStatus
no_status = record {
  phase = "";
  conditions = [];
  container_statuses = [];
  init_container_statuses = [];
  ephemeral_container_statuses = [];
  other = "";
}

-- The pod chaperon of a proxy pod, given its source pod and its new labels.
pub delegate_of : Pod → Pod → Map String → String → PodChaperon
unfolding drop_constraints set_scheduler
delegate_of proxy_pod src_pod labels cluster_name =
    let annotations = src_pod.meta.annotations in
    let bare : Meta = record {
      name = "";
      generate_name = proxy_pod.meta.name <> "-";
      namespace = proxy_pod.meta.namespace;
      uid = "";
      labels = labels;
      annotations = user_annotations annotations;
      finalizers = [];
      owner_references = [];
      deletion_timestamp = none;
    } in
    let free =
      drop_constraints
        (has_key annotation_key_use_constraints_from_spec_for_proxy_pod_scheduling annotations)
        src_pod.spec in
    let scheduled =
      set_scheduler (has_key annotation_key_no_reservation annotations)
        (remove_service_account free) in
    record {
      meta = add_remote_controller_reference bare proxy_pod.meta cluster_name;
      spec = record scheduled { priority = none };
      status = no_status;
    }

abbrev pub with_labels : Pod → Pod → String → Result (Map String × Bool) → Result PodChaperon
with_labels proxy_pod src_pod cluster_name (err e) =
    err (wrap ("failed to change labels for proxy pod " <> (proxy_pod.meta.name <> ": ")) e)
with_labels proxy_pod src_pod cluster_name (ok (labels, changed)) =
    ok (delegate_of proxy_pod src_pod labels cluster_name)

module _ (unmarshal : String → Result Pod) (compile : String → Result (String → Bool)) where
  abbrev pub with_source : Pod → String → Result Pod → Result PodChaperon
  with_source proxy_pod cluster_name (err e) = err e
  with_source proxy_pod cluster_name (ok src_pod) = with_labels proxy_pod src_pod cluster_name (
      change_labels compile src_pod.meta.labels
        (get annotation_no_prefix_label_regexp src_pod.meta.annotations))

  pub make_delegate_pod : Pod → String → Result PodChaperon
  unfolding change_labels get_source_pod
  make_delegate_pod proxy_pod cluster_name =
      with_source proxy_pod cluster_name (get_source_pod unmarshal proxy_pod)
