-- ===== src/Manager/Examples.antt =====
-- A target in another cluster, and one that is the cluster itself.
use admiralty.Base.{
  String, ◌==◌, ◌≢◌, eq_iff, arith, ◌≡◌, refl, true, false, none, some, List, [], ◌∷◌, ◌++◌, inl,
  inr, All, Map, Result, ok, calls,
}
use admiralty.Agent.{Target, get_known_finalizers}
use admiralty.Cleanup
use admiralty.Cleanup.{Key, Answer, patch_finalizers, know}
use admiralty.Cleanup.Spares.{Spares}
use admiralty.HttpServer.{
  TlsConfig, Server, tls_config_with, load_tls_config, setup_http_server, accepted_ciphers,
}
use admiralty.Kube.Samples.{sample_meta}
use admiralty.Manager.{
  signed, interrupted, serving, unsupported, by_virtual_node, cluster_scoped, run_controllers,
  add_targets, add_cluster_scoped, follow_controllers, start_old_style_controllers, secrets_follow,
  start_virtual_kubelet_servers,
}
use admiralty.Manager.Wiring.{Distinct, all_wired, run_controllers-wired}
use admiralty.Manager.Spares.{cleanup-SparesTargets}

abbrev other : Target
other = record {
  name = "t";
  self = false;
  namespace = "ns";
  excluded_labels_regexp = none;
  virtual_node_name = "admiralty-ns-t";
  finalizer = "multicluster.admiralty.io/ns-t";
}

abbrev own : Target
own = record {
  name = "self";
  self = true;
  namespace = "";
  excluded_labels_regexp = none;
  virtual_node_name = "admiralty-self";
  finalizer = "multicluster.admiralty.io/self";
}

abbrev targets : List Target
targets = other ∷ own ∷ []

differ : (a b : String) → (a == b) ≡ false → a ≢ b
differ a b h e = ground (arith, eq_iff a b)

abbrev distinct : Distinct targets
distinct = ((differ own.virtual_node_name other.virtual_node_name refl, tt), (tt, tt))

run_controllers-wired_example :
    (run_controllers targets true).controllers
    ≡ all_wired some targets ++ cluster_scoped targets true
run_controllers-wired_example = run_controllers-wired targets true distinct

abbrev server : (log : List Cleanup.Call) (c : Cleanup.Call) → Result (Answer c)
server log (patch_finalizers k finalizers) = ok tt

abbrev reconciler : Cleanup.Reconciler
reconciler = record {
  server = server;
  lister = λ k. ok (record (sample_meta "u" [] []) { finalizers = other.finalizer ∷ [] });
  known_finalizers = know (get_known_finalizers targets);
}

abbrev secret_key : Key
secret_key = record { kind = "Secret"; namespace = "ns"; name = "p" }

-- The third controller that runs follows the secrets of the other cluster, and the eleventh cleans up.
cleanup-SparesTargets_example :
    All (Spares other.finalizer) (calls (Cleanup.handle reconciler secret_key))
unfolding run_controllers add_targets add_cluster_scoped follow_controllers
    start_old_style_controllers cluster_scoped
cleanup-SparesTargets_example =
    cleanup-SparesTargets targets true (secrets_follow other) other (get_known_finalizers targets)
      reconciler secret_key (inr (inr (inl refl))) refl
      (inr (inr (inr (inr (inr (inr (inr (inr (inr (inr (inl refl))))))))))) refl

-- Without a certificate in time there are no logs, and the agent goes on.
abbrev key_pair : String → String → Result String
key_pair cert_pem key_pem = ok cert_pem

abbrev listen : String → TlsConfig String → Result String
listen address tls_config = ok address

no_certificate :
    start_virtual_kubelet_servers (setup_http_server key_pair listen) targets interrupted
    ≡ unsupported
unfolding start_virtual_kubelet_servers
no_certificate = refl

abbrev served : Server String String (Map Target)
served = record {
  listener = ":10250";
  tls_config = record {
    certificates = "cert" ∷ [];
    min_version = "TLS 1.2";
    prefer_server_cipher_suites = true;
    cipher_suites = accepted_ciphers;
  };
  routes = by_virtual_node [] targets;
}

-- With a certificate the server listens at the port of a kubelet, and knows the targets by their nodes.
serves :
    start_virtual_kubelet_servers (setup_http_server key_pair listen) targets (signed "cert" "key")
    ≡ serving served
unfolding start_virtual_kubelet_servers setup_http_server load_tls_config tls_config_with
serves = refl
