-- ===== src/Follow/Keys.antt =====
-- The keys of the config maps or the secrets that a proxy pod refers to, and whether one is referred
-- to by a pod that was scheduled to the target. `name_in` gives the name in a reference.
use admiralty.Base.{String, ◌<>◌, Bool, Option, none, some, List, [], ◌∷◌, ◌++◌, any, ◌==◌}
use admiralty.Kube.{Reference, Container, Volume, Pod}
use admiralty.Agent.{Target}
use admiralty.DelegatePod.{get_scheduled_cluster_name}

abbrev pub key_of : Pod → Option String → List String
key_of pod none = []
key_of pod (some name) = (pod.meta.namespace <> ("/" <> name)) ∷ []

module _ (name_in : Reference → Option String) (pod : Pod) where
  abbrev keys_of : List Reference → List String
  keys_of [] = []
  keys_of (source ∷ sources) = key_of pod (name_in source) ++ keys_of sources

  abbrev keys_of_env : List (Option Reference) → List String
  keys_of_env [] = []
  keys_of_env (none ∷ env) = keys_of_env env
  keys_of_env (some from ∷ env) = key_of pod (name_in from) ++ keys_of_env env

  unfoldable pub keys_of_containers : List Container → List String
  keys_of_containers [] = []
  keys_of_containers (c ∷ containers) =
      keys_of_env c.env ++ (keys_of c.env_from ++ keys_of_containers containers)

  abbrev keys_of_projected : Option (List Reference) → List String
  keys_of_projected none = []
  keys_of_projected (some sources) = keys_of sources

  unfoldable pub keys_of_volumes : List Volume → List String
  keys_of_volumes [] = []
  keys_of_volumes (vol ∷ volumes) =
      key_of pod (name_in vol.source)
      ++ (keys_of_projected vol.projected ++ keys_of_volumes volumes)

-- shouldFollow, given the pods that the index files under the key
abbrev pub is_used : Target → List Pod → Bool
is_used target pods = any (λ pod. get_scheduled_cluster_name pod == target.virtual_node_name) pods
