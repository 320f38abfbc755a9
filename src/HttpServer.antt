-- ===== src/HttpServer.antt =====
-- pkg/vk/http/http.go: the server of logs and commands. `tls.X509KeyPair` and `tls.Listen` are
-- parameters, and so are certificates and listeners; the routes are a library's, and are known by the
-- provider of their handlers. When the server is made nothing has to be closed on an error.
use admiralty.Base.{String, Bool, true, List, [], ◌∷◌, Result, ok, err, wrap}

-- AcceptedCiphers
pub accepted_ciphers : List String
accepted_ciphers =
    "TLS_ECDHE_ECDSA_WITH_AES_256_CBC_SHA" ∷ "TLS_ECDHE_ECDSA_WITH_AES_128_CBC_SHA"
    ∷ "TLS_ECDHE_RSA_WITH_AES_256_CBC_SHA" ∷ "TLS_ECDHE_RSA_WITH_AES_128_CBC_SHA"
    ∷ "TLS_ECDHE_ECDSA_WITH_AES_256_GCM_SHA384" ∷ "TLS_ECDHE_RSA_WITH_AES_256_GCM_SHA384"
    ∷ "TLS_ECDHE_ECDSA_WITH_AES_128_GCM_SHA256" ∷ "TLS_ECDHE_RSA_WITH_AES_128_GCM_SHA256" ∷ []

-- tls.Config
pub record TlsConfig (C : Type 0) : Type 0 where
  pub certificates : List C
  pub min_version : String
  pub prefer_server_cipher_suites : Bool
  pub cipher_suites : List String

-- What is served, and where.
pub record Server (C L P : Type 0) : Type 0 where
  pub listener : L
  pub tls_config : TlsConfig C
  pub routes : P

unfoldable pub tls_config_with : {C : Type 0} → Result C → Result (TlsConfig C)
unfolding accepted_ciphers
tls_config_with (err e) = err (wrap "error loading tls certs: " e)
tls_config_with (ok cert) = ok (record {
  certificates = cert ∷ [];
  min_version = "TLS 1.2";
  prefer_server_cipher_suites = true;
  cipher_suites = accepted_ciphers;
})

-- loadTLSConfig
unfoldable pub load_tls_config :
    {C : Type 0} → (String → String → Result C) → String → String → Result (TlsConfig C)
load_tls_config key_pair cert_pem key_pem = tls_config_with (key_pair cert_pem key_pem)

module _ {C L P : Type 0} (key_pair : String → String → Result C)
    (listen : String → TlsConfig C → Result L) where
  abbrev serve_on : P → TlsConfig C → Result L → Result (Server C L P)
  serve_on p tls_config (err e) = err (wrap "error setting up listener for pod http server: " e)
  serve_on p tls_config (ok l) = ok (record { listener = l; tls_config = tls_config; routes = p })

  abbrev serve_with : P → Result (TlsConfig C) → Result (Server C L P)
  serve_with p (err e) = err e
  serve_with p (ok tls_config) = serve_on p tls_config (listen ":10250" tls_config)

  -- SetupHTTPServer
  unfoldable pub setup_http_server : P → String → String → Result (Server C L P)
  unfolding load_tls_config
  setup_http_server p cert_pem key_pem = serve_with p (load_tls_config key_pair cert_pem key_pem)
