-- ===== src/Plugins/Proxy/Examples.antt =====
-- The plugin on two virtual nodes.
use admiralty.Base.{
  ℕ, String, ◌≡◌, ◌⊎◌, refl, true, false, none, List, [], ◌∷◌, All, get, has_key, any, map, keep,
  run, calls, Result, ok, err, Error, unknown, return, send, lift, try, ◌>>=◌, lookup, insert,
}
use admiralty.Common.{
  label_and_taint_key_virtual_kubelet_provider, virtual_kubelet_provider_name,
  label_key_target_namespace, annotation_key_no_reservation, annotation_key_is_reserved,
}
use admiralty.Kube.{Meta, Pod, PodChaperon, PodCondition}
use admiralty.Kube.Samples.{sample_meta, sample_pod, sample_status, sample_chaperon}
use admiralty.Agent.{Target}
use admiralty.Plugins.{Poller, rounds, answer_or, success}
use admiralty.Plugins.Proxy.{
  Call, Answer, list_chaperons, create_chaperon, patch_allowed, delete_chaperons, Environment,
  Plugin, new_plugin, unreserved_in_a_previous_cycle, is_candidate_pod_unschedulable, filter,
  pre_bind, reserve, post_bind, forget_pod, out_of_scope, get_candidate, filter_condition, judge,
  candidate_is_bound, allow_candidate, bound_by, add_targets,
}
use admiralty.Plugins.Proxy.Memory.{
  unreserved, post_filtered, replay, is_unreserve, since_reset,
  unreserved_in_a_previous_cycle-replay,
}
use admiralty.Plugins.Proxy.Filter.{
  SeenReserved, Listed, filter-success, ListsOrCreates, filter-ListsOrCreates,
}
use admiralty.Plugins.Proxy.Bind.{
  SaysBound, pre_bind-SaysBound, is_other, deletion, newest_first, post_bind_lem,
}

-- Polling with a fixed number of ticks.
abbrev late : Error
late = record { reason = unknown; message = "timed out waiting for the condition" }

abbrev counted : (C : Type 0) → ℕ → Poller C
counted C n = record {
  poll = λ condition. rounds late n condition;
  timed_out = late;
  ticks = λ condition log. n;
  poll_rounds = λ condition log. refl;
}

abbrev bound : PodCondition
bound = record { kind = "PodScheduled"; status = "True"; reason = "" }

abbrev candidate : PodChaperon
candidate = record (sample_chaperon ((annotation_key_is_reserved, "true") ∷ [])) {
  status = record (sample_status "Pending") { conditions = bound ∷ [] };
}

-- There is no candidate at first, and one once a call has been made.
abbrev listed : List Call → List PodChaperon
listed [] = []
listed (c ∷ log) = candidate ∷ []

abbrev server : (log : List Call) (c : Call) → Result (Answer c)
server log (list_chaperons cluster namespace uid) = ok (listed log)
server log (create_chaperon cluster namespace c) = ok c
server log (patch_allowed cluster namespace name) = ok candidate
server log (delete_chaperons cluster namespace uid) = err late

abbrev env : Environment
env = record {
  server = server;
  filtering = counted Call 2;
  pre_binding = counted Call 2;
  unmarshal = λ manifest. ok (sample_pod "");
  compile = λ expression. ok (λ s. false);
}

abbrev target : String → Target
target name = record {
  name = name;
  self = false;
  namespace = "";
  excluded_labels_regexp = none;
  virtual_node_name = name;
  finalizer = "multicluster.admiralty.io/t";
}

abbrev targets : List Target
targets = target "n1" ∷ target "n2" ∷ []

abbrev plugin : Plugin
plugin = new_plugin "source" targets

abbrev pod : Pod
pod = sample_pod ""

abbrev node : Meta
node =
    record (sample_meta "n"
      ((label_and_taint_key_virtual_kubelet_provider, virtual_kubelet_provider_name) ∷ []) []) {
        name = "n1";
      }

-- One call has been made before: the candidate is there.
abbrev before : List Call
before = list_chaperons "n1" "ns" "u" ∷ []

unreserved_in_a_previous_cycle-replay_example :
    unreserved_in_a_previous_cycle
      (replay plugin (unreserved pod "n2" ∷ post_filtered pod ∷ unreserved pod "n1" ∷ []))
      "u"
      "n2"
    ≡ any
        (is_unreserve "u" "n2")
        (since_reset "u" (unreserved pod "n2" ∷ post_filtered pod ∷ unreserved pod "n1" ∷ []))
unreserved_in_a_previous_cycle-replay_example =
    unreserved_in_a_previous_cycle-replay "source" targets
      (unreserved pod "n2" ∷ post_filtered pod ∷ unreserved pod "n1" ∷ []) "u" "n2"

filter_passes : (filter env plugin pod node before).0 ≡ ok success
unfolding filter filter_condition get_candidate judge rounds answer_or try return send lift ◌>>=◌
    lookup new_plugin add_targets unreserved_in_a_previous_cycle is_candidate_pod_unschedulable
    insert
filter_passes = refl

filter-success_example :
    (get label_and_taint_key_virtual_kubelet_provider node.labels ≡ virtual_kubelet_provider_name)
    × (unreserved_in_a_previous_cycle plugin pod.meta.uid node.name ≡ false)
    × (out_of_scope env plugin (get label_key_target_namespace node.labels) pod ≡ false)
    × ((has_key annotation_key_no_reservation pod.meta.annotations ≡ true)
        ⊎ SeenReserved env plugin pod node.name)
filter-success_example = filter-success env plugin pod node before filter_passes

filter-ListsOrCreates_example :
    All (ListsOrCreates env plugin pod node.name) (calls (filter env plugin pod node))
filter-ListsOrCreates_example = filter-ListsOrCreates env plugin pod node

pre_bind_passes : (pre_bind env plugin pod "n1" before).0 ≡ ok success
unfolding pre_bind candidate_is_bound get_candidate rounds answer_or try return send lift ◌>>=◌
    lookup new_plugin add_targets bound_by insert
pre_bind_passes = refl

pre_bind-SaysBound_example :
    (seen : List Call) × (c : PodChaperon) × Listed env plugin pod "n1" seen c
    × SaysBound c.status.conditions
pre_bind-SaysBound_example = pre_bind-SaysBound env plugin pod "n1" before pre_bind_passes

reserve_passes : (reserve env plugin pod "n1" before).0 ≡ ok success
unfolding reserve get_candidate allow_candidate try return send lift ◌>>=◌ lookup new_plugin
    add_targets insert
reserve_passes = refl

wants : has_key annotation_key_no_reservation pod.meta.annotations ≡ false
unfolding lookup
wants = refl

post_bind_lem_example : run (post_bind env plugin pod "n1") ≡ (
  ok (forget_pod plugin pod),
  newest_first env plugin pod
      (map (deletion env plugin pod) (keep (is_other env plugin pod "n1") plugin.targets))
      [],
)
post_bind_lem_example = post_bind_lem env plugin pod "n1"
