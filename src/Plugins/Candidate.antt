-- ===== src/Plugins/Candidate.antt =====
-- pkg/scheduler_plugins/candidate/plugin.go: in a target cluster, the plugin marks the chaperon of a
-- candidate pod as reserved when the scheduler has found a node for the pod, and lets it bind the
-- pod once the proxy scheduler has allowed it.
mod Examples
use admiralty.Base.{
  String, ◌≡◌, refl, ap, true, false, [], ◌∷◌, send, ok_inj, try-Returns, Bool, Option, none, some,
  List, Map, has_key, if◌then◌else◌, Result, ok, Exec, return, try, request,
}
use admiralty.Common.{annotation_key_is_reserved, annotation_key_is_allowed}
use admiralty.Kube.{Pod, PodChaperon}
use admiralty.Plugins.{Status, success, refused, failure, Poller, poll-Met, Met}

-- A merge patch of the annotations: `none` stands for null, which removes one.
pub data Call : Type 0 where
  patch_annotations : String → String → Map (Option String) → Call
  get_chaperon : String → String → Call

abbrev pub Answer : Call → Type 0
Answer (patch_annotations namespace name patch) = PodChaperon
Answer (get_chaperon namespace name) = PodChaperon

pub record Environment : Type 1 where
  pub server : (log : List Call) (c : Call) → Result (Answer c)
  pub waiting : Poller Call

module _ (env : Environment) where
  open env use {server}

  patch_reserved : Pod → Option String → Exec Call Status
  patch_reserved p value =
      try
        (request server (
          patch_annotations p.meta.namespace p.meta.name
            ((annotation_key_is_reserved, value) ∷ [])))
        (λ e. return (refused failure e.message)) (λ _. return success)

  pre_filter : Pod → Exec Call Status
  unfolding patch_reserved
  pre_filter p = patch_reserved p none

  pub reserve : Pod → Exec Call Status
  unfolding patch_reserved
  reserve p = patch_reserved p (some "true")

  abbrev allowed_by : PodChaperon → Option (Unit {0})
  allowed_by pod = if has_key annotation_key_is_allowed pod.meta.annotations then some tt else none

  -- An error of the API server is taken for one that will pass.
  pub is_allowed : Pod → Exec Call (Option (Unit {0}))
  is_allowed p =
      try (request server (get_chaperon p.meta.namespace p.meta.name)) (λ e. return none)
        (λ pod. return (allowed_by pod))

  pub pre_bind : Pod → Exec Call Status
  pre_bind p =
      try (env.waiting.poll (is_allowed p)) (λ e. return (refused failure e.message))
        (λ _. return success)

is_allowed-Met :
    (env : Environment) (p : Pod) (a : Unit {0}) (seen : List Call)
    → (is_allowed env p seen).0 ≡ ok (some a)
    → (seen : List Call) × (c : PodChaperon) × (env.server seen
          (get_chaperon p.meta.namespace p.meta.name)
        ≡ ok c)
      × (has_key annotation_key_is_allowed c.meta.annotations ≡ true)
unfolding is_allowed return send
is_allowed-Met env p a seen e =
    try-Returns _ _ _ seen e (λ x log' never. cc)
      (λ c log' got done. (
        seen,
        c,
        cc,
        is_marked (has_key annotation_key_is_allowed c.meta.annotations) a (ok_inj done),
      ))
  where
    is_marked : (b : Bool) (a : Unit {0}) → (if b then some tt else none) ≡ some a → b ≡ true
    is_marked true a e = refl
    is_marked false a e = cc

-- `PreBind` succeeds only if the API server has answered, at some time of the waiting, that the
-- pod's chaperon has the annotation that allows it.
pub pre_bind-allowed :
    (env : Environment) (p : Pod) (log : List Call)
    → (pre_bind env p log).0 ≡ ok success
    → (seen : List Call) × (c : PodChaperon) × (env.server seen
          (get_chaperon p.meta.namespace p.meta.name)
        ≡ ok c)
      × (has_key annotation_key_is_allowed c.meta.annotations ≡ true)
unfolding pre_bind return
pre_bind-allowed env p log e =
    try-Returns _ _ _ log e (λ x log' never. cc)
      (λ a log' waited done.
        allowed a (poll-Met (is_allowed env p) a env.waiting log (ap (λ r. r.0) waited)))
  where
    allowed :
        (a : Unit {0})
        → Met (is_allowed env p) a
        → (seen : List Call) × (c : PodChaperon) × (env.server seen
              (get_chaperon p.meta.namespace p.meta.name)
            ≡ ok c)
          × (has_key annotation_key_is_allowed c.meta.annotations ≡ true)
    allowed a (seen, met) = is_allowed-Met env p a seen met
