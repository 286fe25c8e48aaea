-- ===== src/Registry.antt =====
-- The indexes and lookups of custom_components/hdg_boiler/registry.py, over the dictionary of
-- definitions that `get_sensor_definitions` gives.
pub mod Groups
pub mod Indexes
use hdg_bavaria_homeassistan.Prelude.{
  ℕ, ◌+◌, Text, codes, Bool, true, false, ◌&&◌, Option, none, some, List, [], ◌∷◌, length, text_eq,
  if◌then◌else◌,
}
use hdg_bavaria_homeassistan.Prelude.Dict.{Dict, lookup, insert}
use hdg_bavaria_homeassistan.NodeId.{strip_hdg_node_suffix}
use hdg_bavaria_homeassistan.Models.{SensorDefinition, truthy}
use hdg_bavaria_homeassistan.Polling.{is_listed}

-- the index of `_index_entities`, item by item; a definition without a node ID is left out
index_one : Option Text → SensorDefinition → Dict SensorDefinition → Dict SensorDefinition
index_one none definition index = index
index_one (some node_id) definition index = insert node_id definition index

pub index_entities : Dict SensorDefinition → Dict SensorDefinition → Dict SensorDefinition
unfolding index_one
index_entities [] index = index
index_entities ((key, definition) ∷ rest) index =
    index_entities rest (index_one (truthy (some definition.hdg_node_id)) definition index)

-- `_entities_by_node_id`
pub entities_by_node_id : Dict SensorDefinition → Dict SensorDefinition
unfolding index_entities
entities_by_node_id definitions = index_entities definitions []

-- `_writable_entities`
unfoldable writable_entities : Dict SensorDefinition → List SensorDefinition
writable_entities [] = []
writable_entities ((key, definition) ∷ rest) =
    let more = writable_entities rest in if definition.writable then definition ∷ more else more

-- `get_entities_for_platform`
unfoldable pub get_entities_for_platform : Text → Dict SensorDefinition → Dict SensorDefinition
unfolding text_eq
get_entities_for_platform platform [] = []
get_entities_for_platform platform ((key, definition) ∷ rest) =
    let more = get_entities_for_platform platform rest in
    if text_eq definition.ha_platform platform then (key, definition) ∷ more else more

has_setter : Option Text → Bool
has_setter none = false
has_setter (some t) = true

-- the condition of `get_settable_number_definition_by_base_node_id`
is_settable : Text → SensorDefinition → Bool
unfolding text_eq has_setter strip_hdg_node_suffix
is_settable base_node_id definition =
    text_eq (strip_hdg_node_suffix definition.hdg_node_id) base_node_id
    && text_eq definition.ha_platform (codes "number")
    && has_setter (truthy definition.setter_type)

unfoldable pub get_settable_number_definition_by_base_node_id :
    Text → Dict SensorDefinition → Option SensorDefinition
unfolding is_settable
get_settable_number_definition_by_base_node_id base_node_id [] = none
get_settable_number_definition_by_base_node_id base_node_id ((key, definition) ∷ rest) =
    if is_settable base_node_id definition
    then some definition
    else get_settable_number_definition_by_base_node_id base_node_id rest

unfoldable pub node_id_of : Option SensorDefinition → Option Text
node_id_of none = none
node_id_of (some definition) = some definition.hdg_node_id

unfoldable pub get_node_id_by_key : Text → Dict SensorDefinition → Option Text
unfolding node_id_of lookup
get_node_id_by_key key definitions = node_id_of (lookup key definitions)

-- `result.add`, for a definition that is enabled
add_active : Bool → Option Text → List Text → List Text
unfolding is_listed strip_hdg_node_suffix
add_active false node_id result = result
add_active true none result = result
add_active true (some node_id) result =
    if is_listed (strip_hdg_node_suffix node_id) result
    then result
    else strip_hdg_node_suffix node_id ∷ result

pub get_default_active_node_ids : Dict SensorDefinition → List Text
unfolding add_active
get_default_active_node_ids [] = []
get_default_active_node_ids ((key, definition) ∷ rest) =
    add_active definition.entity_registry_enabled_default (truthy (some definition.hdg_node_id))
      (get_default_active_node_ids rest)

-- the list comprehension of `get_optimized_payload_for_group`
active_nodes : List Text → List Text → List Text
unfolding is_listed strip_hdg_node_suffix
active_nodes active_node_ids [] = []
active_nodes active_node_ids (n ∷ nodes) =
    let rest = active_nodes active_node_ids nodes in
    if is_listed (strip_hdg_node_suffix n) active_node_ids then n ∷ rest else rest

active_payload : List Text → ℕ → Option (List Text) × ℕ × ℕ
active_payload [] total = (none, 0, total)
active_payload (n ∷ nodes) total = (some (n ∷ nodes), length (n ∷ nodes), total)

-- `get_optimized_payload_for_group`, from the nodes of the group's payload
pub get_optimized_payload : List Text → List Text → Option (List Text) × ℕ × ℕ
unfolding active_nodes active_payload
get_optimized_payload all_group_nodes active_node_ids =
    active_payload (active_nodes active_node_ids all_group_nodes) (length all_group_nodes)
