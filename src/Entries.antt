-- ===== src/Entries.antt =====
-- The entries of Home Assistant's entity registry: the unique IDs of
-- custom_components/hdg_boiler/entity.py, and how custom_components/hdg_boiler/registry.py finds
-- the node of an entry; and the nodes that custom_components/hdg_boiler/coordinator.py polls. `quote` is `urllib.parse.quote` with no safe characters.
mod Examples
pub mod UniqueId
pub mod Active
use hdg_bavaria_homeassistan.Prelude.{
  ℕ, zero, suc, ◌-◌, Text, codes, Bool, true, false, ◌&&◌, Option, none, some, List, [], ◌∷◌, ◌++◌,
  length, ◌==◌, text_eq, if◌then◌else◌,
}
use hdg_bavaria_homeassistan.Prelude.Dict.{Dict}
use hdg_bavaria_homeassistan.Texts.{first_chars, starts_with, ends_with}
use hdg_bavaria_homeassistan.Models.{SensorDefinition, truthy}
use hdg_bavaria_homeassistan.NodeId.{strip_hdg_node_suffix}
use hdg_bavaria_homeassistan.Polling.{is_listed}
use hdg_bavaria_homeassistan.Registry.{get_node_id_by_key}

-- `HdgBaseEntity.__init__`, with `normalize_unique_id_component`
pub unique_id : (Text → Text) → Text → Text → Text
unique_id quote device_identifier unique_id_suffix =
    codes "hdg_boiler::" ++ (quote device_identifier ++ (codes "::" ++ quote unique_id_suffix))

-- `HdgNodeEntity.__init__`: no description has the attribute `ha_platform`, so the platform is always
-- the default
pub node_unique_id : (Text → Text) → Text → Text → Text
unfolding unique_id
node_unique_id quote device_identifier translation_key =
    unique_id quote device_identifier (translation_key ++ codes "_sensor")

-- `text.split("::")`; the flag says that the next character belongs to a separator
pub prepend : ℕ → List Text → List Text
prepend c [] = (c ∷ []) ∷ []
prepend c (part ∷ parts) = (c ∷ part) ∷ parts

pub split_from : Bool → Text → List Text
unfolding prepend starts_with
split_from after [] = [] ∷ []
split_from true (c ∷ s) = split_from false s
split_from false (c ∷ s) =
    let rest = split_from false s in
    let behind = split_from true s in
    if c == b':' && starts_with s (codes ":") then [] ∷ behind else prepend c rest

pub split_parts : Text → List Text
unfolding split_from
split_parts = split_from false

-- PLATFORM_SUFFIXES
abbrev pub platform_suffixes : List Text
platform_suffixes = codes "_sensor" ∷ codes "_number" ∷ codes "_select" ∷ []

-- `suffix[: -len(plat)]` for the first platform suffix that the text ends with
pub strip_platform : List Text → Text → Text
unfolding first_chars ends_with
strip_platform [] suffix = suffix
strip_platform (plat ∷ rest) suffix =
    if ends_with suffix plat
    then first_chars (length suffix - length plat) suffix
    else strip_platform rest suffix

-- the key in a unique ID, which has three parts
key_of_parts : List Text → Option Text
unfolding strip_platform
key_of_parts (domain ∷ device ∷ suffix ∷ []) = some (strip_platform platform_suffixes suffix)
key_of_parts parts = none

unfoldable pub entry_key : Text → Option Text
unfolding key_of_parts split_parts
entry_key id = key_of_parts (split_parts id)

base_of : Option Text → Option Text
unfolding strip_hdg_node_suffix
base_of none = none
base_of (some node_id) = some (strip_hdg_node_suffix node_id)

node_of_key : Option Text → Dict SensorDefinition → Option Text
unfolding base_of get_node_id_by_key
node_of_key none definitions = none
node_of_key (some key) definitions = base_of (truthy (get_node_id_by_key key definitions))

-- `resolve_node_id_from_entity_entry`
pub resolve_node_id_from_entity_entry : Text → Dict SensorDefinition → Option Text
unfolding node_of_key entry_key
resolve_node_id_from_entity_entry id definitions = node_of_key (entry_key id) definitions

-- `register_node`
pub register_node : Text → List Text → List Text
unfolding is_listed
register_node node_id active = if is_listed node_id active then active else node_id ∷ active

-- `unregister_node`
pub unregister_node : Text → List Text → List Text
unregister_node node_id [] = []
unregister_node node_id (n ∷ active) =
    let rest = unregister_node node_id active in if text_eq n node_id then rest else n ∷ rest

-- RegistryEntryDisabler, as far as the program tells the members apart.
pub data Disabler : Type 0 where
  by_integration by_user by_other : Disabler

-- An entry of Home Assistant's registry.
pub record RegistryEntry : Type 0 where
  pub unique_id : Text
  pub disabled_by : Option Disabler

-- `entry.disabled`
abbrev pub is_disabled : Option Disabler → Bool
is_disabled none = false
is_disabled (some who) = true

-- the loop body of `_sync_active_nodes_from_registry`
pub sync_entry : Bool → Option Text → List Text → List Text
unfolding register_node
sync_entry disabled none active = active
sync_entry true (some node_id) active = active
sync_entry false (some node_id) active = register_node node_id active

-- `_sync_active_nodes_from_registry`
pub sync_active_nodes : Dict SensorDefinition → List RegistryEntry → List Text → List Text
unfolding sync_entry resolve_node_id_from_entity_entry
sync_active_nodes definitions [] active = active
sync_active_nodes definitions (entry ∷ entries) active = sync_active_nodes definitions entries (
    sync_entry (is_disabled entry.disabled_by)
      (resolve_node_id_from_entity_entry entry.unique_id definitions) active)

-- What Home Assistant tells an entity of a node, with whether the entity is enabled then.
pub data Notice : Type 0 where
  added removed updated : Bool → Notice

-- `async_added_to_hass`, `async_will_remove_from_hass`, `async_registry_entry_updated`
pub notify : Notice → Text → List Text → List Text
unfolding register_node unregister_node
notify (added true) node_id active = register_node node_id active
notify (added false) node_id active = active
notify (removed true) node_id active = unregister_node node_id active
notify (removed false) node_id active = active
notify (updated true) node_id active = register_node node_id active
notify (updated false) node_id active = unregister_node node_id active

pub notify_all : List (Notice × Text) → List Text → List Text
unfolding notify
notify_all [] active = active
notify_all ((notice, node_id) ∷ rest) active = notify_all rest (notify notice node_id active)
