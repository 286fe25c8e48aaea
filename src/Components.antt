-- ===== src/Components.antt =====
-- The hardware groups that a user switches on and off: `async_sync_entities_by_key` of
-- custom_components/hdg_boiler/helpers/entity_registry_utils.py, its two callers in
-- custom_components/hdg_boiler/__init__.py, and the default of a new entity in
-- custom_components/hdg_boiler/entity.py. The options that are flags are a dict of their own.
mod Examples
pub mod Groups
pub mod Synced
use hdg_bavaria_homeassistan.Prelude.{
  ℕ, Text, codes, Bool, true, false, not, Option, none, some, List, [], ◌∷◌, map, if◌then◌else◌,
}
use hdg_bavaria_homeassistan.Prelude.Dict.{Dict, lookup, insert}
use hdg_bavaria_homeassistan.Models.{SensorDefinition, truthy}
use hdg_bavaria_homeassistan.Texts.{strip}
use hdg_bavaria_homeassistan.NodeId.{normalize_hdg_node_id}
use hdg_bavaria_homeassistan.Entries.{
  RegistryEntry, Disabler, by_integration, by_user, by_other, entry_key,
}

-- COMPONENT_GROUP_OPTIONS: for a group, the key of its option and the default
pub component_group_options : Dict (Text × Bool)
component_group_options =
    (codes "ww1", (codes "enable_ww1", false))
    ∷ (codes "ww2", (codes "enable_ww2", false))
    ∷ (codes "hk2", (codes "enable_hk2", false))
    ∷ (codes "hk3", (codes "enable_hk3", false))
    ∷ (codes "hk4", (codes "enable_hk4", false))
    ∷ (codes "hk5", (codes "enable_hk5", false))
    ∷ (codes "hk6", (codes "enable_hk6", false))
    ∷ (codes "solar", (codes "enable_solar", false))
    ∷ (codes "puffer_2", (codes "enable_puffer_2", false))
    ∷ (codes "ext_wq", (codes "enable_ext_wq", false))
    ∷ (codes "lager", (codes "enable_lager", false))
    ∷ (codes "netzpumpe_1", (codes "enable_netzpumpe_1", false))
    ∷ (codes "netzpumpe_2", (codes "enable_netzpumpe_2", false))
    ∷ (codes "netzpumpe_3", (codes "enable_netzpumpe_3", false))
    ∷ []

-- The effect on an entry whose key should be enabled or not.
toggled : Bool → Option Disabler → Option Disabler
toggled true (some by_integration) = none
toggled true (some by_user) = some by_user
toggled true (some by_other) = some by_other
toggled true none = none
toggled false none = some by_integration
toggled false (some who) = some who

toggle_when : Option Bool → RegistryEntry → RegistryEntry
unfolding toggled
toggle_when none entry = entry
toggle_when (some b) entry = record entry { disabled_by = toggled b entry.disabled_by }

should_enable : Dict Bool → Option Text → Option Bool
unfolding lookup
should_enable key_to_should_enable none = none
should_enable key_to_should_enable (some key) = lookup key key_to_should_enable

pub sync_entity : Dict Bool → RegistryEntry → RegistryEntry
unfolding toggle_when should_enable entry_key
sync_entity key_to_should_enable entry =
    toggle_when (should_enable key_to_should_enable (entry_key entry.unique_id)) entry

-- `async_sync_entities_by_key`
pub sync_entities_by_key : Dict Bool → List RegistryEntry → List RegistryEntry
unfolding sync_entity
sync_entities_by_key key_to_should_enable = map (sync_entity key_to_should_enable)

-- `entry.options.get(conf_key, default_enabled)`
flag_or : Bool → Option Bool → Bool
flag_or default_enabled none = default_enabled
flag_or default_enabled (some b) = b

pub group_flag : Dict Bool → Text × Bool → Bool
unfolding flag_or lookup
group_flag flags (conf_key, default_enabled) = flag_or default_enabled (lookup conf_key flags)

-- `suffix_to_enabled` of `_async_sync_component_groups`; `none` is the KeyError of a group without
-- an option
pub enabled_of_group : Dict Bool → Option (Text × Bool) → Option Bool
unfolding group_flag
enabled_of_group flags none = none
enabled_of_group flags (some option) = some (group_flag flags option)

put_enabled : Text → Option Bool → Option (Dict Bool) → Option (Dict Bool)
put_enabled key none rest = none
put_enabled key (some b) none = none
put_enabled key (some b) (some rest) = some ((key, b) ∷ rest)

enabled_with : Dict Bool → Text → Option Text → Option (Dict Bool) → Option (Dict Bool)
unfolding put_enabled enabled_of_group lookup component_group_options
enabled_with flags key none rest = rest
enabled_with flags key (some group) rest =
    put_enabled key (enabled_of_group flags (lookup group component_group_options)) rest

pub suffix_to_enabled : Dict Bool → Dict SensorDefinition → Option (Dict Bool)
unfolding enabled_with
suffix_to_enabled flags [] = some []
suffix_to_enabled flags ((key, d) ∷ rest) =
    enabled_with flags key (truthy d.component_group) (suffix_to_enabled flags rest)

-- `_async_sync_component_groups`, with the definitions for the options
sync_when : Option (Dict Bool) → List RegistryEntry → Option (List RegistryEntry)
unfolding sync_entities_by_key
sync_when none entries = none
sync_when (some enabled) entries = some (sync_entities_by_key enabled entries)

sync_component_groups :
    Dict Bool → Dict SensorDefinition → List RegistryEntry → Option (List RegistryEntry)
unfolding sync_when suffix_to_enabled
sync_component_groups flags definitions entries =
    sync_when (suffix_to_enabled flags definitions) entries

-- `_async_sync_puffer_sensors`
is_given : Text → Bool
is_given [] = false
is_given (c ∷ s) = true

node_is_set : Option Text → Bool
unfolding is_given normalize_hdg_node_id strip
node_is_set none = false
node_is_set (some raw) = elim (truthy (some (strip raw))) [
  | none ↦ false
  | some stripped ↦ is_given (normalize_hdg_node_id raw)
]

puffer_keys : Dict Text → Dict Bool
unfolding node_is_set lookup
puffer_keys options =
    (
      codes "puffer_temperatur_mitte_oben",
      node_is_set (truthy (lookup (codes "puffer_mitte_oben_node_id") options)),
    )
    ∷ (
      codes "puffer_temperatur_mitte_unten",
      node_is_set (truthy (lookup (codes "puffer_mitte_unten_node_id") options)),
    )
    ∷ []

sync_puffer_sensors : Dict Text → List RegistryEntry → List RegistryEntry
unfolding sync_entities_by_key puffer_keys
sync_puffer_sensors options entries = sync_entities_by_key (puffer_keys options) entries

-- `_attr_entity_registry_enabled_default` of `HdgNodeEntity.__init__`
default_of_group : Dict Bool → Bool → Option (Text × Bool) → Bool
unfolding group_flag
default_of_group flags own none = own
default_of_group flags own (some option) = group_flag flags option

default_with : Dict Bool → Bool → Option Text → Bool
unfolding default_of_group lookup component_group_options
default_with flags own none = own
default_with flags own (some group) =
    default_of_group flags own (lookup group component_group_options)

pub registry_enabled_default : Dict Bool → SensorDefinition → Bool
unfolding default_with
registry_enabled_default flags d =
    default_with flags d.entity_registry_enabled_default (truthy d.component_group)
