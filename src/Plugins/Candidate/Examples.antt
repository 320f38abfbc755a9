-- ===== src/Plugins/Candidate/Examples.antt =====
-- The plugin where the second look finds the chaperon allowed.
use admiralty.Base.{
  ℕ, ◌≡◌, refl, true, List, [], ◌∷◌, has_key, Result, ok, Error, unknown, return, send, try, ◌>>=◌,
  lookup,
}
use admiralty.Common.{annotation_key_is_allowed}
use admiralty.Kube.{PodChaperon}
use admiralty.Kube.Samples.{sample_pod, sample_chaperon}
use admiralty.Plugins.{Poller, rounds, answer_or, success}
use admiralty.Plugins.Candidate.{
  Call, Answer, patch_annotations, get_chaperon, Environment, is_allowed, pre_bind,
  pre_bind-allowed,
}

abbrev late : Error
late = record { reason = unknown; message = "timed out waiting for the condition" }

abbrev counted : ℕ → Poller Call
counted n = record {
  poll = λ condition. rounds late n condition;
  timed_out = late;
  ticks = λ condition log. n;
  poll_rounds = λ condition log. refl;
}

abbrev allowing : (log : List Call) (c : Call) → Result (Answer c)
allowing log (patch_annotations namespace name patch) = ok (sample_chaperon [])
allowing [] (get_chaperon namespace name) = ok (sample_chaperon [])
allowing (c ∷ log) (get_chaperon namespace name) =
    ok (sample_chaperon ((annotation_key_is_allowed, "true") ∷ []))

abbrev env : Environment
env = record { server = allowing; waiting = counted 2 }

allowed_passes : (pre_bind env (sample_pod "") []).0 ≡ ok success
unfolding pre_bind is_allowed rounds answer_or try return send ◌>>=◌ lookup
allowed_passes = refl

pre_bind-allowed_example :
    (seen : List Call) × (c : PodChaperon) × (env.server seen (get_chaperon "ns" "p") ≡ ok c)
    × (has_key annotation_key_is_allowed c.meta.annotations ≡ true)
pre_bind-allowed_example = pre_bind-allowed env (sample_pod "") [] allowed_passes
