-- ===== src/Plugins/Proxy/Memory.antt =====
-- What the plugin remembers, over any history of the calls that change it: the virtual nodes on which
-- a pod was unreserved since the last time that all nodes were filtered out or that it was bound.
use admiralty.Base.{
  String, ◌≡◌, refl, Bool, true, false, ◌&&◌, ◌||◌, Option, none, some, List, [], ◌∷◌, Map, lookup,
  insert, lookup-delete, any, ◌==◌, eq_iff, arith, if◌then◌else◌,
}
use admiralty.Kube.{Pod}
use admiralty.Agent.{Target}
use admiralty.Plugins.Proxy.{
  Plugin, new_plugin, unreserved_in_a_previous_cycle, is_marked, made_map, failed_node_names,
  post_filter, unreserve, forget_pod,
}

-- The calls that change the memory, of any pods and in any order, the last one first.
pub data Event : Type 0 where
  unreserved : Pod → String → Event
  post_filtered : Pod → Event
  post_bound : Pod → Event

abbrev after_event : Event → Plugin → Plugin
after_event (unreserved p node_name) pl = unreserve pl p node_name
after_event (post_filtered p) pl = (post_filter pl p).0
after_event (post_bound p) pl = forget_pod pl p

pub replay : Plugin → List Event → Plugin
unfolding unreserve post_filter forget_pod
replay pl [] = pl
replay pl (e ∷ events) = after_event e (replay pl events)

abbrev is_reset : String → Event → Bool
is_reset uid (unreserved p node_name) = false
is_reset uid (post_filtered p) = p.meta.uid == uid
is_reset uid (post_bound p) = p.meta.uid == uid

abbrev pub is_unreserve : String → String → Event → Bool
is_unreserve uid node (unreserved p node_name) = (p.meta.uid == uid) && (node_name == node)
is_unreserve uid node (post_filtered p) = false
is_unreserve uid node (post_bound p) = false

pub since_reset : String → List Event → List Event
since_reset uid [] = []
since_reset uid (e ∷ events) =
    let rest = since_reset uid events in if is_reset uid e then [] else e ∷ rest

is_marked-made :
    (m : Option (Map Bool)) (node : String) → is_marked (some (made_map m)) node ≡ is_marked m node
unfolding lookup
is_marked-made none node = refl
is_marked-made (some names) node = refl

module _ (pl : Plugin) (p : Pod) (uid node : String) where
  unreserved_in-unreserve :
      (node_name : String)
      → unreserved_in_a_previous_cycle (unreserve pl p node_name) uid node
        ≡ ((p.meta.uid == uid) && (node_name == node)) || unreserved_in_a_previous_cycle pl uid node
  unfolding unreserved_in_a_previous_cycle unreserve lookup insert
  unreserved_in-unreserve node_name = ground (
    arith,
    eq_iff p.meta.uid uid,
    is_marked-made (failed_node_names pl p.meta.uid) node,
    same p.meta.uid uid,
  )
    where
      same : (u v : String) → u ≡ v → failed_node_names pl u ≡ failed_node_names pl v
      same u v e = cc

  unreserved_in-post_filter :
      unreserved_in_a_previous_cycle (post_filter pl p).0 uid node
      ≡ (if p.meta.uid == uid then false else unreserved_in_a_previous_cycle pl uid node)
  unfolding unreserved_in_a_previous_cycle post_filter lookup insert
  unreserved_in-post_filter = ground arith

  unreserved_in-forget_pod :
      unreserved_in_a_previous_cycle (forget_pod pl p) uid node
      ≡ (if p.meta.uid == uid then false else unreserved_in_a_previous_cycle pl uid node)
  unfolding unreserved_in_a_previous_cycle forget_pod
  unreserved_in-forget_pod =
      ground (arith, lookup-delete p.meta.uid uid pl.failed_node_names_by_pod_uid)

fresh :
    (cluster_name : String) (targets : List Target) (uid node : String)
    → unreserved_in_a_previous_cycle (new_plugin cluster_name targets) uid node ≡ false
unfolding unreserved_in_a_previous_cycle new_plugin lookup
fresh cluster_name targets uid node = refl

any-reset :
    (b : Bool) (f : Event → Bool) (e : Event) (events : List Event)
    → f e ≡ false
    → (if b then false else any f events) ≡ any f (if b then [] else e ∷ events)
any-reset true f e events off = refl
any-reset false f e events off = ground arith

step :
    (e : Event) (pl : Plugin) (uid node : String) (since : List Event)
    → unreserved_in_a_previous_cycle pl uid node ≡ any (is_unreserve uid node) since
    → unreserved_in_a_previous_cycle (after_event e pl) uid node
      ≡ any (is_unreserve uid node) (if is_reset uid e then [] else e ∷ since)
step (unreserved p name) pl uid node since h =
    rw (unreserved_in-unreserve pl p uid node name, h) refl
step (post_filtered p) pl uid node since h =
    rw (unreserved_in-post_filter pl p uid node, h)
      (any-reset (p.meta.uid == uid) (is_unreserve uid node) (post_filtered p) since refl)
step (post_bound p) pl uid node since h =
    rw (unreserved_in-forget_pod pl p uid node, h)
      (any-reset (p.meta.uid == uid) (is_unreserve uid node) (post_bound p) since refl)

-- The new plugin, after any history of `Unreserve`, `PostFilter` and `PostBind`, remembers a node for a
-- pod exactly if the pod was unreserved on that node since the last `PostFilter` or `PostBind` of a
-- pod with its UID.
pub unreserved_in_a_previous_cycle-replay :
    (cluster_name : String) (targets : List Target) (events : List Event) (uid node : String)
    → unreserved_in_a_previous_cycle (replay (new_plugin cluster_name targets) events) uid node
      ≡ any (is_unreserve uid node) (since_reset uid events)
unfolding replay since_reset
unreserved_in_a_previous_cycle-replay cluster_name targets [] uid node =
    fresh cluster_name targets uid node
unreserved_in_a_previous_cycle-replay cluster_name targets (e ∷ events) uid node =
    step e (replay (new_plugin cluster_name targets) events) uid node (since_reset uid events)
      (unreserved_in_a_previous_cycle-replay cluster_name targets events uid node)
