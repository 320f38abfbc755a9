-- ===== src/ConfigMap/Examples.antt =====
-- The config maps that a proxy pod refers to.
use admiralty.Base.{◌≡◌, refl, none, some, [], ◌∷◌}
use admiralty.Kube.Samples.{sample_pod}
use admiralty.DelegatePod.{is_proxy}
use admiralty.ConfigMap.{index_proxy_pod_by_config_maps}

-- A proxy pod that mounts a config map.
mounts :
    index_proxy_pod_by_config_maps (record (sample_pod "") {
      spec = record (sample_pod "").spec {
        volumes =
            record {
              name = "v";
              source = record { config_map = some "settings"; secret = none };
              projected = none;
            }
            ∷ [];
      };
    })
    ≡ "ns/settings" ∷ []
unfolding index_proxy_pod_by_config_maps is_proxy
mounts = refl
