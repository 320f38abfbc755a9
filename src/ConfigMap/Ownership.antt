-- ===== src/ConfigMap/Ownership.antt =====
-- What the controller does to config maps that are not its own, and when a finalizer comes off.
use admiralty.Base.{String, ◌≡◌, false, Option, ok, All, Makes, calls}
use admiralty.Follow.{Call, is_foreign, found_remote}
use admiralty.Follow.Ownership.{
  bring_labelled-Makes, Stays, IsOurs, Holds, advance-Makes, planned-Makes, calls-IsOurs,
}
use admiralty.ConfigMap.{ConfigMap, config_maps, Reconciler, bring_data, advance, plan, handle}

module _ (r : Reconciler) (config_map : ConfigMap) where
  abbrev pub Ours : Option ConfigMap → Call ConfigMap → Type 0
  Ours remote = IsOurs config_maps config_map remote (Holds config_maps r.base config_map)

  bring_data-Makes :
      (namespace : String) (held : ConfigMap) (remote : Option ConfigMap)
      → is_foreign config_maps r.base config_map remote ≡ false
      → Stays config_maps config_map remote
      → Makes (Ours remote) (bring_data r namespace held remote)
  unfolding bring_data
  bring_data-Makes namespace held remote owned stays =
      bring_labelled-Makes config_maps r.base config_map (Holds config_maps r.base config_map) _ _
        namespace remote owned stays

  advance_plan-Makes :
      (namespace : String) (remote : Option ConfigMap)
      → is_foreign config_maps r.base config_map remote ≡ false
      → Stays config_maps config_map remote
      → Makes (Ours remote) (advance r namespace config_map remote)
  unfolding advance
  advance_plan-Makes namespace remote owned stays =
      advance-Makes config_maps r.base config_map remote _ _ stays
        (λ held. bring_data-Makes namespace held remote owned stays)

-- Where the listers answer, with a config map of the source and perhaps one of its name in the target:
-- the target's is deleted or updated only if it is the config map's copy, deleted only if the config
-- map is going away and updated only if it is not; one is created only if there is none and the config
-- map stays; and an update of the config map itself puts the target's finalizer behind the others of
-- one that stays, or is made for one that goes away and has no copy left.
handle_config_map-IsOurs :
    (r : Reconciler) (key : String) (config_map : ConfigMap) (remote : Option ConfigMap)
    → found_remote config_maps r.base
        (r.base.remote_lister (r.base.split_key key).0 (r.base.split_key key).1)
      ≡ ok remote
    → r.base.lister (r.base.split_key key).0 (r.base.split_key key).1 ≡ ok config_map
    → All (Ours r config_map remote) (calls (handle r key))
unfolding handle plan
handle_config_map-IsOurs r key config_map remote found listed =
    calls-IsOurs config_maps r.base config_map (Holds config_maps r.base config_map) _ _ _ key
      remote found listed
      (λ p planned owned stays.
        planned-Makes config_maps r.base config_map remote _ _ p planned
          (advance_plan-Makes r config_map _ remote owned stays))
