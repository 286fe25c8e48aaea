-- ===== src/Definitions/Measures.antt =====
-- Factories of custom_components/hdg_boiler/definitions.py for physical quantities: keyword arguments by position, in
-- the order of the source's parameters.
use hdg_bavaria_homeassistan.Prelude.{Text, codes, Bool, Option, none, some}
use hdg_bavaria_homeassistan.Models.{
  SensorDefinition, DeviceClass, StateClass, EntityCategory, HaUnit, tonnes, weight, DeviceClass,
  kelvin, measurement, pa, percentage,
}
use hdg_bavaria_homeassistan.Definitions.Base.{create_sensor_definition}

-- Create a standard percentage sensor
unfoldable pub create_percentage_sensor :
    (key : Text)
    → (node_id : Text) → (polling_group : Text) → (icon : Text)
    → (ha_state_class : Option StateClass) → (entity_category : Option EntityCategory)
    → (ha_device_class : Option DeviceClass) → (entity_registry_enabled_default : Bool)
    → SensorDefinition
unfolding create_sensor_definition
create_percentage_sensor key node_id polling_group icon ha_state_class entity_category
      ha_device_class entity_registry_enabled_default =
    record (create_sensor_definition node_id key polling_group (codes "2") (codes "float")) {
      hdg_formatter = some (codes "iPERC");
      ha_native_unit_of_measurement = some percentage;
      ha_state_class = ha_state_class;
      icon = some icon;
      entity_category = entity_category;
      ha_device_class = ha_device_class;
      entity_registry_enabled_default = entity_registry_enabled_default;
    }

-- Create a sensor for time duration
unfoldable pub create_duration_sensor :
    (key : Text)
    → (node_id : Text) → (polling_group : Text) → (icon : Text) → (hdg_formatter : Text)
    → (unit : HaUnit) → (ha_state_class : Option StateClass)
    → (entity_category : Option EntityCategory) → (entity_registry_enabled_default : Bool)
    → SensorDefinition
unfolding create_sensor_definition
create_duration_sensor key node_id polling_group icon hdg_formatter unit ha_state_class
      entity_category entity_registry_enabled_default =
    record (create_sensor_definition node_id key polling_group (codes "2") (codes "float")) {
      hdg_formatter = some hdg_formatter;
      ha_device_class = some DeviceClass.duration;
      ha_native_unit_of_measurement = some unit;
      ha_state_class = ha_state_class;
      icon = some icon;
      entity_category = entity_category;
      entity_registry_enabled_default = entity_registry_enabled_default;
    }

-- Create a sensor for energy consumption
unfoldable pub create_energy_sensor :
    (key : Text)
    → (node_id : Text) → (polling_group : Text) → (icon : Text) → (hdg_formatter : Text)
    → (unit : HaUnit) → (ha_state_class : Option StateClass)
    → (entity_category : Option EntityCategory) → (ha_device_class : Option DeviceClass)
    → (entity_registry_enabled_default : Bool) → SensorDefinition
unfolding create_sensor_definition
create_energy_sensor key node_id polling_group icon hdg_formatter unit ha_state_class
      entity_category ha_device_class entity_registry_enabled_default =
    record (create_sensor_definition node_id key polling_group (codes "2") (codes "float")) {
      hdg_formatter = some hdg_formatter;
      ha_device_class = ha_device_class;
      ha_native_unit_of_measurement = some unit;
      ha_state_class = ha_state_class;
      icon = some icon;
      entity_category = entity_category;
      entity_registry_enabled_default = entity_registry_enabled_default;
    }

-- Create a pressure sensor in Pascals
unfoldable pub create_pressure_sensor :
    (key : Text)
    → (node_id : Text) → (polling_group : Text) → (icon : Text)
    → (entity_category : Option EntityCategory) → (entity_registry_enabled_default : Bool)
    → SensorDefinition
unfolding create_sensor_definition
create_pressure_sensor key node_id polling_group icon entity_category
      entity_registry_enabled_default =
    record (create_sensor_definition node_id key polling_group (codes "2") (codes "float")) {
      hdg_formatter = some (codes "iPASCAL");
      ha_device_class = some DeviceClass.pressure;
      ha_native_unit_of_measurement = some pa;
      ha_state_class = some measurement;
      icon = some icon;
      entity_category = entity_category;
      entity_registry_enabled_default = entity_registry_enabled_default;
    }

-- Create a sensor for temperature difference in Kelvin
unfoldable pub create_kelvin_sensor :
    (key : Text)
    → (node_id : Text) → (polling_group : Text) → (icon : Text)
    → (entity_category : Option EntityCategory) → (entity_registry_enabled_default : Bool)
    → SensorDefinition
unfolding create_sensor_definition
create_kelvin_sensor key node_id polling_group icon entity_category
      entity_registry_enabled_default =
    record (create_sensor_definition node_id key polling_group (codes "2") (codes "float")) {
      hdg_formatter = some (codes "iKELV");
      ha_native_unit_of_measurement = some kelvin;
      ha_state_class = some measurement;
      icon = some icon;
      entity_category = entity_category;
      entity_registry_enabled_default = entity_registry_enabled_default;
    }

-- Create a mass/weight sensor
unfoldable pub create_mass_sensor :
    (key : Text)
    → (node_id : Text) → (polling_group : Text) → (icon : Text) → (hdg_formatter : Text)
    → (unit : HaUnit) → (ha_state_class : Option StateClass)
    → (entity_category : Option EntityCategory) → (entity_registry_enabled_default : Bool)
    → SensorDefinition
unfolding create_sensor_definition
create_mass_sensor key node_id polling_group icon hdg_formatter unit ha_state_class entity_category
      entity_registry_enabled_default =
    record (create_sensor_definition node_id key polling_group (codes "2") (codes "float")) {
      hdg_formatter = some hdg_formatter;
      ha_device_class = elim unit [ tonnes ↦ none | _ ↦ some weight ];
      ha_native_unit_of_measurement = some unit;
      ha_state_class = ha_state_class;
      icon = some icon;
      entity_category = entity_category;
      entity_registry_enabled_default = entity_registry_enabled_default;
    }
