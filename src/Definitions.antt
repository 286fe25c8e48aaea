-- ===== src/Definitions.antt =====
-- SENSOR_DEFINITIONS and `get_sensor_definitions` of custom_components/hdg_boiler/definitions.py.
-- The rows stand in files named for the parts of the plant; a dictionary literal puts its items
-- in one by one, and a later item with the same key replaces an earlier one.
mod Examples
pub mod Base
pub mod Factories
pub mod Measures
pub mod SystemSettings
pub mod FiringSettings
pub mod BufferSettings
pub mod BoilerReadings
pub mod RuntimeReadings
pub mod DutyReadings
pub mod BufferReadings
pub mod Buffer2Readings
pub mod WaterReadings
pub mod SolarReadings
pub mod HeatingCircuit
pub mod NetworkPump
pub mod Catalogue
pub mod Everywhere
use hdg_bavaria_homeassistan.Prelude.{
  ℕ, Text, codes, Bool, true, false, Option, none, some, List, [], ◌∷◌, ◌++◌, if◌then◌else◌,
}
use hdg_bavaria_homeassistan.Prelude.Dict.{Dict, lookup, insert}
use hdg_bavaria_homeassistan.Texts.{starts_with, strip}
use hdg_bavaria_homeassistan.NodeId.{normalize_hdg_node_id}
use hdg_bavaria_homeassistan.Models.{SensorDefinition, truthy}
use hdg_bavaria_homeassistan.Definitions.Base.{Items, polling_group_1, with_group}
use hdg_bavaria_homeassistan.Definitions.Factories.{create_temp_sensor}
use hdg_bavaria_homeassistan.Definitions.SystemSettings.{system_settings}
use hdg_bavaria_homeassistan.Definitions.FiringSettings.{firing_settings}
use hdg_bavaria_homeassistan.Definitions.BufferSettings.{buffer_settings}
use hdg_bavaria_homeassistan.Definitions.BoilerReadings.{boiler_readings}
use hdg_bavaria_homeassistan.Definitions.RuntimeReadings.{runtime_readings}
use hdg_bavaria_homeassistan.Definitions.DutyReadings.{duty_readings}
use hdg_bavaria_homeassistan.Definitions.BufferReadings.{buffer_readings}
use hdg_bavaria_homeassistan.Definitions.Buffer2Readings.{buffer2_readings}
use hdg_bavaria_homeassistan.Definitions.WaterReadings.{water_readings}
use hdg_bavaria_homeassistan.Definitions.SolarReadings.{solar_readings}
use hdg_bavaria_homeassistan.Definitions.HeatingCircuit.{get_hk_definitions}
use hdg_bavaria_homeassistan.Definitions.NetworkPump.{
  get_netzpumpe_definitions, get_netzpumpe_param_definitions,
}

unfoldable pub prefix_group_map : Items Text
prefix_group_map =
    (codes "puffer_2_", codes "puffer_2")
    ∷ (codes "ww1_", codes "ww1")
    ∷ (codes "ww2_", codes "ww2")
    ∷ (codes "lager_", codes "lager")
    ∷ (codes "externe_warmequelle_", codes "ext_wq")
    ∷ []

-- the inner loop over _PREFIX_GROUP_MAP
pub tag_by_prefix : Items Text → Text → SensorDefinition → SensorDefinition
unfolding starts_with with_group
tag_by_prefix [] k defn = defn
tag_by_prefix ((prefix, group) ∷ rest) k defn =
    if starts_with k prefix then with_group defn group else tag_by_prefix rest k defn

pub tag_all : Items SensorDefinition → Items SensorDefinition
unfolding tag_by_prefix prefix_group_map
tag_all [] = []
tag_all ((k, defn) ∷ rest) = (k, tag_by_prefix prefix_group_map k defn) ∷ tag_all rest

-- the items of the literal SENSOR_DEFINITIONS, in its order
unfoldable pub sensor_items : Items SensorDefinition
unfolding get_netzpumpe_definitions get_netzpumpe_param_definitions get_hk_definitions
    system_settings firing_settings buffer_settings boiler_readings runtime_readings duty_readings
    buffer_readings buffer2_readings water_readings solar_readings
sensor_items =
    get_netzpumpe_definitions 1 27000
    ++ get_netzpumpe_definitions 2 27100
    ++ get_netzpumpe_definitions 3 27200
    ++ get_netzpumpe_param_definitions 1 7000
    ++ get_netzpumpe_param_definitions 2 7100
    ++ get_netzpumpe_param_definitions 3 7200
    ++ system_settings
    ++ firing_settings
    ++ buffer_settings
    ++ get_hk_definitions 1 6000 26000
    ++ get_hk_definitions 2 6100 26100
    ++ get_hk_definitions 3 6200 26200
    ++ get_hk_definitions 4 6300 26300
    ++ get_hk_definitions 5 6400 26400
    ++ get_hk_definitions 6 6500 26500
    ++ boiler_readings
    ++ runtime_readings
    ++ duty_readings
    ++ buffer_readings
    ++ buffer2_readings
    ++ water_readings
    ++ solar_readings

-- `{**d, k: v, ...}`
pub put_all : Items SensorDefinition → Dict SensorDefinition → Dict SensorDefinition
put_all [] d = d
put_all ((k, defn) ∷ rest) d = put_all rest (insert k defn d)

-- SENSOR_DEFINITIONS, with the component groups that its prefixes give
pub sensor_definitions : Dict SensorDefinition
unfolding put_all tag_all sensor_items
sensor_definitions = tag_all (put_all sensor_items [])

-- PUFFER_MITTE_NODE_MAP
pub puffer_mitte_node_map : Items Text
puffer_mitte_node_map =
    (codes "puffer_temperatur_mitte_oben", codes "puffer_mitte_oben_node_id")
    ∷ (codes "puffer_temperatur_mitte_unten", codes "puffer_mitte_unten_node_id")
    ∷ []

-- the node ID that an option's value gives, if it gives one
puffer_node : Option Text → Option Text
unfolding normalize_hdg_node_id strip
puffer_node conf = elim (truthy conf) [
  | none ↦ none
  | some raw ↦ elim (truthy (some (strip raw))) [
    | none ↦ none
    | some _ ↦ truthy (some (normalize_hdg_node_id raw))
  ]
]

-- one pass of the loop over that map
add_puffer_mitte : Text → Option Text → Dict SensorDefinition → Dict SensorDefinition
unfolding create_temp_sensor
add_puffer_mitte key none defs = defs
add_puffer_mitte key (some nid) defs =
    insert key
      (create_temp_sensor key nid polling_group_1 (codes "mdi:coolant-temperature") none true) defs

add_each : Items Text → Dict Text → Dict SensorDefinition → Dict SensorDefinition
unfolding add_puffer_mitte puffer_node lookup
add_each [] opts defs = defs
add_each ((key, conf) ∷ rest) opts defs =
    add_each rest opts (add_puffer_mitte key (puffer_node (lookup conf opts)) defs)

-- `get_sensor_definitions`; no options are the empty dictionary
unfoldable pub get_sensor_definitions : Dict Text → Dict SensorDefinition
unfolding sensor_definitions add_each puffer_mitte_node_map
get_sensor_definitions opts = add_each puffer_mitte_node_map opts sensor_definitions
