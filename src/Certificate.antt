-- ===== src/Certificate.antt =====
-- pkg/vk/csr/csr.go: the agent asks for a certificate for the server of logs and commands, approves the
-- request itself, and waits until it is signed. The key and its encodings, the encodings of usages,
-- which end the program where they fail, and the environment are parameters; polling is as in Plugins.
pub mod Signed
mod Examples
use admiralty.Base.{
  String, Option, none, some, List, [], ◌∷◌, ◌++◌, ◌==◌, if◌then◌else◌, Result, Exec, return, try,
  request, ◌>>=◌,
}
use admiralty.Plugins.{Poller}

-- x509.CertificateRequest, as far as the code sets it.
pub record Template : Type 0 where
  pub common_name : String
  pub organization : List String
  pub ip_address : String

pub record Condition : Type 0 where
  pub kind : String  -- the field `Type`
  pub reason : String
  pub message : String
  pub status : String

-- certificates/v1, CertificateSigningRequest
pub record SigningRequest : Type 0 where
  pub name : String
  pub generate_name : String
  pub usages : List String
  pub signer_name : String
  pub request : String
  pub conditions : List Condition
  pub certificate : String

pub data Call : Type 0 where
  create : SigningRequest → Call
  update_approval : String → SigningRequest → Call
  get : String → Call

pub record Environment : Type 1 where
  pub server : (log : List Call) (c : Call) → Result SigningRequest
  pub waiting : Poller Call
  pub key : String  -- the generated key, in PEM
  pub encode : Template → String → String  -- the request for the key, in PEM
  pub pod_ip : String
  pub csr_signer_name : String

module _ (env : Environment) where
  open env use {server, key}

  pub template : Template
  template = record {
    common_name = "system:node:admiralty";
    organization = "system:nodes" ∷ [];
    ip_address = env.pod_ip;
  }

  pub new_request : SigningRequest
  unfolding template
  new_request = record {
    name = "";
    generate_name = "admiralty-";
    usages = "key encipherment" ∷ "digital signature" ∷ "server auth" ∷ [];
    signer_name = env.csr_signer_name;
    request = env.encode template key;
    conditions = [];
    certificate = "";
  }

  pub approved : SigningRequest → SigningRequest
  approved csr = record csr {
    conditions =
        csr.conditions
        ++ (record {
          kind = "Approved";
          reason = "self-approved";
          message = "self-approved";
          status = "True";
        }
            ∷ []);
  }

  abbrev certificate_of : SigningRequest → Option String
  certificate_of csr = if csr.certificate == "" then none else some csr.certificate

  -- An error of the API server is taken for one that will pass.
  pub is_signed : String → Exec Call (Option String)
  is_signed name =
      try (request server (get name)) (λ e. return none) (λ csr. return (certificate_of csr))

  -- GetCertificateFromKubernetesAPIServer: the certificate and the key
  pub get_certificate : Exec Call (String × String)
  unfolding new_request approved is_signed
  get_certificate = request server (create new_request) >>= λ created.
      request server (update_approval created.name (approved created)) >>= λ csr.
      env.waiting.poll (is_signed csr.name) >>= λ certificate. return (certificate, key)
