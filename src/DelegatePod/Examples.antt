-- ===== src/DelegatePod/Examples.antt =====
-- The labels and the pod chaperon of small proxy pods.
use admiralty.Base.{String, ◌≡◌, refl, List, [], ◌∷◌, ok, none}
use admiralty.Kube.{Pod, Container, VolumeMount, Volume, PodSpec}
use admiralty.Kube.Samples.{sample_spec}
use admiralty.DelegatePod.{
  get_source_pod, remove_service_account, account_path, find_mount, split_slash,
}
use admiralty.DelegatePod.Samples.{proxy, unmarshal, compile, made, makes}
use admiralty.DelegatePod.Make.{IsDelegate, make_delegate_pod-IsDelegate}

splits : split_slash "a/b/c" ≡ ("a", "b" ∷ "c" ∷ [])
unfolding split_slash
splits = refl

make_delegate_pod-IsDelegate_example :
    (src : Pod) × (get_source_pod unmarshal proxy ≡ ok src) × IsDelegate proxy src "cluster" made
make_delegate_pod-IsDelegate_example =
    make_delegate_pod-IsDelegate unmarshal compile proxy "cluster" made (λ e. cc) (λ e. cc) makes

abbrev account_mount : VolumeMount
account_mount = record { name = "token"; mount_path = account_path }

abbrev data_mount : VolumeMount
data_mount = record { name = "data"; mount_path = "/data" }

abbrev container : List VolumeMount → Container
container mounts = record { name = "c"; env = []; env_from = []; volume_mounts = mounts }

abbrev volume : String → Volume
volume name = record {
  name = name;
  source = record { config_map = none; secret = none };
  projected = none;
}

abbrev with_account : PodSpec
with_account = record (sample_spec "") {
  containers = container (data_mount ∷ account_mount ∷ []) ∷ [];
  volumes = volume "data" ∷ volume "token" ∷ [];
}

-- The account's mount and its volume go, and the others stay.
removes_account : remove_service_account with_account ≡ record with_account {
  containers = container (data_mount ∷ []) ∷ [];
  volumes = volume "data" ∷ [];
}
unfolding remove_service_account find_mount
removes_account = refl
