-- ===== src/VirtualNode.antt =====
-- pkg/vk/node: the virtual node of a target, in the source cluster. The virtual kubelet's node
-- controller is a library: here are the node that it is given, what it does on an error of an
-- update, and the provider through which the upstream resources controller reaches it. The time and
-- the address, which come from the clock and the environment, are parameters.
pub mod Admission
mod Examples
use admiralty.Base.{
  String, Option, none, some, List, [], ◌∷◌, Map, if◌then◌else◌, Result, Error, is_not_found, Exec,
  fail, return, request, ◌>>=◌,
}
use admiralty.Common.{label_and_taint_key_virtual_kubelet_provider, virtual_kubelet_provider_name}
use admiralty.Agent.{Target, base_labels}

-- corev1.Taint
pub record Taint : Type 0 where
  pub key : String
  pub value : String
  pub effect : String

pub record NodeCondition : Type 0 where
  pub kind : String  -- the field `Type`
  pub status : String
  pub last_heartbeat_time : String
  pub last_transition_time : String

pub record NodeAddress : Type 0 where
  pub kind : String  -- the field `Type`
  pub address : String

pub record Node : Type 0 where
  pub name : String
  pub resource_version : String
  pub labels : Map String
  pub taints : List Taint
  pub conditions : List NodeCondition
  pub addresses : List NodeAddress

abbrev pub provider_taint : Taint
provider_taint = record {
  key = label_and_taint_key_virtual_kubelet_provider;
  value = virtual_kubelet_provider_name;
  effect = "NoSchedule";
}

-- NodeFromOpts, which asks for the time twice
pub node_from_opts : String → String → String → Target → Node
node_from_opts now later pod_ip t = record {
  name = t.virtual_node_name;
  resource_version = "";
  labels = base_labels t.namespace t.name;
  taints = provider_taint ∷ [];
  conditions =
      record {
        kind = "Ready";
        status = "True";
        last_heartbeat_time = now;
        last_transition_time = later;
      }
      ∷ [];
  addresses = record { kind = "InternalIP"; address = pod_ip } ∷ [];
}

pub data Call : Type 0 where
  create_node : Node → Call

-- The handler that `Run` gives to the node controller for errors of its updates of the status: a
-- node that is not there is created anew.
on_status_update_error :
    ((log : List Call) (c : Call) → Result Node) → Node → Error → Exec Call (Unit {0})
on_status_update_error server n e =
    if is_not_found e
    then (request server (create_node (record n { resource_version = "" })) >>= λ _. return tt)
    else fail e

-- NodeProvider: the callback that the node controller registers, on a state of any type.
pub record NodeProvider (S : Type 0) : Type 0 where
  pub cb : Option (Node → S → S)

module _ {S : Type 0} where
  notify_node_status : NodeProvider S → (Node → S → S) → NodeProvider S
  notify_node_status p cb = record { cb = some cb }

  -- An update before the callback is registered is lost.
  pub update_node_status : NodeProvider S → Node → S → S
  update_node_status p node s = elim p.cb [ none ↦ s | some cb ↦ cb node s ]
