-- ===== src/Certificate/Examples.antt =====
-- A request that is signed after the first look at it.
use admiralty.Base.{
  ◌≡◌, All, calls, ℕ, refl, List, [], ◌∷◌, Result, ok, err, Error, unknown, return, send, try,
  ◌>>=◌,
}
use admiralty.Plugins.{Poller, rounds, answer_or}
use admiralty.Certificate.{
  SigningRequest, Call, create, update_approval, get, Environment, new_request, approved, is_signed,
  get_certificate,
}
use admiralty.Certificate.Signed.{Allowed, Outcome, get_certificate-Obtained}

abbrev late : Error
late = record { reason = unknown; message = "timed out waiting for the condition" }

abbrev counted : ℕ → Poller Call
counted n = record {
  poll = λ condition. rounds late n condition;
  timed_out = late;
  ticks = λ condition log. n;
  poll_rounds = λ condition log. refl;
}

abbrev signed : SigningRequest
signed = record {
  name = "admiralty-x";
  generate_name = "admiralty-";
  usages = [];
  signer_name = "signer";
  request = "request";
  conditions = [];
  certificate = "certificate";
}

abbrev server : (log : List Call) (c : Call) → Result SigningRequest
server log (create csr) = ok (record csr { name = "admiralty-x" })
server log (update_approval name csr) = ok csr
server (get name ∷ log) (get name') = ok signed
server log (get name) = err late

abbrev env : Environment
env = record {
  server = server;
  waiting = counted 1;
  key = "key";
  encode = λ template key. "request";
  pod_ip = "10.0.0.1";
  csr_signer_name = "signer";
}

get_certificate-Obtained_example :
    All (Allowed env) (calls (get_certificate env)) × Outcome env (get_certificate env []).0
get_certificate-Obtained_example = get_certificate-Obtained env

a_certificate : (get_certificate env []).0 ≡ ok ("certificate", "key")
unfolding get_certificate new_request approved is_signed rounds answer_or return send try ◌>>=◌
a_certificate = refl
