-- ===== src/Certificate/Signed.antt =====
-- The certificate that is returned was signed for the key that is returned with it.
use admiralty.Base.{
  Result, err, All, All-calls, calls, Yields, Makes, Makes-send, Makes-return, Makes-try,
  Makes-bind, Makes-bind-Yields, String, ◌≡◌, ◌≢◌, refl, ap, subst, none, some, List, [], ◌∷◌, ◌++◌,
  ◌==◌, eq_iff, if◌then◌else◌, arith, ok, ok_inj, return, send, request, bind-Returns, try-Returns,
}
use admiralty.Plugins.{poll-Met, poll-Makes}
use admiralty.Certificate.{
  SigningRequest, template, Call, create, update_approval, get, Environment, new_request, approved,
  is_signed, get_certificate,
}

module _ (env : Environment) where
  -- The API server has answered with a certificate for the request of that name.
  abbrev Signs : String → String → Type 0
  Signs name certificate =
      (seen : List Call) × (csr : SigningRequest) × (env.server seen (get name) ≡ ok csr)
      × (csr.certificate ≡ certificate)
      × (certificate ≢ "")

  is_signed-Signs :
      (name certificate : String) (seen : List Call)
      → (is_signed env name seen).0 ≡ ok (some certificate)
      → Signs name certificate
  unfolding is_signed return send
  is_signed-Signs name certificate seen e =
      try-Returns _ _ _ seen e (λ x log' never. cc)
        (λ csr log' got done.
          let (same, there) = present csr.certificate (ok_inj done) in (seen, csr, cc, same, there))
    where
      present :
          (c : String)
          → (if c == "" then none else some c) ≡ some certificate
          → (c ≡ certificate) × (certificate ≢ "")
      present c e = (ground (arith, eq_iff c ""), λ n. ground (arith, eq_iff c ""))

  -- The request that goes out: for the key of the environment, with this subject and these usages.
  abbrev Requests : SigningRequest → Type 0
  Requests csr =
      (csr.request
        ≡ env.encode
            (record {
              common_name = "system:node:admiralty";
              organization = "system:nodes" ∷ [];
              ip_address = env.pod_ip;
            })
            env.key)
      × (csr.name ≡ "")
      × (csr.generate_name ≡ "admiralty-")
      × (csr.usages ≡ "key encipherment" ∷ "digital signature" ∷ "server auth" ∷ [])
      × (csr.signer_name ≡ env.csr_signer_name)
      × (csr.conditions ≡ [])
      × (csr.certificate ≡ "")

  new_request-Requests : Requests (new_request env)
  unfolding new_request template
  new_request-Requests = (refl, refl, refl, refl, refl, refl, refl)

  -- The request as the API server has made it, and with one more condition, that it is approved.
  abbrev Approves : SigningRequest → SigningRequest → Type 0
  Approves created csr = csr ≡ record created {
    conditions =
        created.conditions
        ++ (record {
          kind = "Approved";
          reason = "self-approved";
          message = "self-approved";
          status = "True";
        }
            ∷ []);
  }

  approved-Approves : (created : SigningRequest) → Approves created (approved env created)
  unfolding approved
  approved-Approves created = refl

  -- The way to a certificate, from the calls that were made before.
  abbrev Obtained : List Call → String → String → Type 0
  Obtained log certificate key_pem =
      (asked : SigningRequest) × (created : SigningRequest) × (agreed : SigningRequest)
      × (csr : SigningRequest) × Requests asked
      × (env.server log (create asked) ≡ ok created)
      × Approves created agreed
      × (env.server (create asked ∷ log) (update_approval created.name agreed) ≡ ok csr)
      × Signs csr.name certificate
      × (key_pem ≡ env.key)

  sent :
      (c : Call) (csr : SigningRequest) (log log' : List Call)
      → request env.server c log ≡ (ok csr, log')
      → (env.server log c ≡ ok csr) × (log' ≡ c ∷ log)
  unfolding send
  sent c csr log log' e = (cc, cc)

  returned :
      (certificate polled key_pem : String) (log : List Call)
      → (return {C = Call} {A = String × String} (polled, env.key) log).0
        ≡ ok (certificate, key_pem)
      → (polled ≡ certificate) × (key_pem ≡ env.key)
  unfolding return
  returned certificate polled key_pem log e = (cc, cc)

  get_certificate-ok :
      (log : List Call) (certificate key_pem : String)
      → (get_certificate env log).0 ≡ ok (certificate, key_pem)
      → Obtained log certificate key_pem
  unfolding get_certificate
  get_certificate-ok log certificate key_pem e =
      bind-Returns (request env.server (create (new_request env))) _ log e λ created made got rest.
        bind-Returns (request env.server (update_approval created.name (approved env created))) _
          made rest
          λ csr agreed approval waited.
            bind-Returns (env.waiting.poll (is_signed env csr.name)) _ agreed waited
              λ polled ended signed done.
                finish created csr polled made agreed ended got approval signed done
    where
      finish :
          (created csr : SigningRequest) (polled : String) (made agreed ended : List Call)
          → request env.server (create (new_request env)) log ≡ (ok created, made)
          → request env.server (update_approval created.name (approved env created)) made
            ≡ (ok csr, agreed)
          → env.waiting.poll (is_signed env csr.name) agreed ≡ (ok polled, ended)
          → (return {C = Call} {A = String × String} (polled, env.key) ended).0
            ≡ ok (certificate, key_pem)
          → Obtained log certificate key_pem
      finish created csr polled made agreed ended got approval signed done =
          let (answered, after) = sent _ created log made got in
          let (granted, later) = sent _ csr made agreed approval in
          let (same, key_same) = returned certificate polled key_pem ended done in
          let (seen, met) =
            poll-Met (is_signed env csr.name) polled env.waiting agreed (ap (λ r. r.0) signed) in
          (
            new_request env,
            created,
            approved env created,
            csr,
            new_request-Requests,
            answered,
            approved-Approves created,
            subst (λ l. env.server l (update_approval created.name (approved env created)) ≡ ok csr)
                after granted,
            subst (Signs csr.name) same (is_signed-Signs csr.name polled seen met),
            key_same,
          )

  -- What each call has to do with the answers that were given before.
  abbrev Answered : Call → SigningRequest → Type 0
  Answered c csr = (seen : List Call) × (env.server seen c ≡ ok csr)

  abbrev pub Allowed : Call → Type 0
  Allowed (create csr) = Requests csr
  Allowed (update_approval name csr) =
      (asked : SigningRequest) × (created : SigningRequest) × Requests asked
      × Answered (create asked) created
      × (name ≡ created.name)
      × Approves created csr
  Allowed (get name) =
      (sent_as : String) × (approval : SigningRequest) × (csr : SigningRequest) × Answered
        (update_approval sent_as approval) csr
      × (name ≡ csr.name)

  request-Answered : (c : Call) → Yields (Answered c) (request env.server c)
  unfolding send
  request-Answered c = record { at = λ log csr e. (log, e) }

  is_signed-Makes : (name : String) → Allowed (get name) → Makes Allowed (is_signed env name)
  unfolding is_signed
  is_signed-Makes name allowed =
      Makes-try _ _ _ (Makes-send _ _ allowed) (λ e. Makes-return none) (λ csr. Makes-return _)

  get_certificate-Makes : Makes Allowed (get_certificate env)
  unfolding get_certificate
  get_certificate-Makes =
      Makes-bind-Yields _ _ (Makes-send _ _ new_request-Requests) (request-Answered _)
        (λ created made.
          Makes-bind-Yields _ _
            (Makes-send _ _ (
              new_request env,
              created,
              new_request-Requests,
              made,
              refl,
              approved-Approves created,
            ))
            (request-Answered _)
            (λ csr agreed.
              Makes-bind _ _
                (poll-Makes _ env.waiting (
                  is_signed-Makes csr.name (created.name, approved env created, csr, agreed, refl)))
                (λ certificate. Makes-return (certificate, env.key))))

  -- What is returned: an error says nothing.
  abbrev pub Outcome : Result (String × String) → Type 0
  Outcome (err e) = Unit {0}
  Outcome (ok (certificate, key_pem)) = Obtained [] certificate key_pem

  -- Whatever the API server answers, every call creates a request that encodes the environment's key for
  -- the node user of the agent, its group and the pod's address, with the three usages and the signer of
  -- the environment; or approves what the API server has made of such a request, under the name that it
  -- was given, with that one condition more; or gets the request of the name that an approval gave back.
  -- Where a certificate is returned with a key, the key is the environment's, these three were answered
  -- in that order, and at some time of the waiting the answer had that certificate, which is not empty.
  pub get_certificate-Obtained :
      All Allowed (calls (get_certificate env)) × Outcome (get_certificate env []).0
  get_certificate-Obtained = (All-calls _ get_certificate-Makes, outcome _ refl)
    where
      outcome : (r : Result (String × String)) → (get_certificate env []).0 ≡ r → Outcome r
      outcome (err e) returned = tt
      outcome (ok (certificate, key_pem)) returned =
          get_certificate-ok [] certificate key_pem returned
