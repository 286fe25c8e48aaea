-- ===== src/Definitions/Factories.antt =====
-- Factories of custom_components/hdg_boiler/definitions.py: keyword arguments by position, in
-- the order of the source's parameters.
use hdg_bavaria_homeassistan.Prelude.{Text, codes, Bool, true, Option, none, some, List}
use hdg_bavaria_homeassistan.Models.{
  SensorDefinition, DeviceClass, StateClass, EntityCategory, HaUnit, ℤ, DeviceClass, celsius,
  config, diagnostic, measurement,
}
use hdg_bavaria_homeassistan.Definitions.Base.{create_sensor_definition}

-- Create a standard temperature sensor in °C
unfoldable pub create_temp_sensor :
    (key : Text)
    → (node_id : Text) → (polling_group : Text) → (icon : Text)
    → (entity_category : Option EntityCategory) → (entity_registry_enabled_default : Bool)
    → SensorDefinition
unfolding create_sensor_definition
create_temp_sensor key node_id polling_group icon entity_category entity_registry_enabled_default =
    record (create_sensor_definition node_id key polling_group (codes "2") (codes "float")) {
      hdg_formatter = some (codes "iTEMP");
      ha_device_class = some DeviceClass.temperature;
      ha_native_unit_of_measurement = some celsius;
      ha_state_class = some measurement;
      icon = some icon;
      entity_category = entity_category;
      entity_registry_enabled_default = entity_registry_enabled_default;
    }

-- Create a sensor for text values based on an ENUM type
unfoldable pub create_enum_sensor :
    (key : Text)
    → (node_id : Text) → (polling_group : Text) → (icon : Text)
    → (entity_category : Option EntityCategory) → (ha_state_class : Option StateClass)
    → (entity_registry_enabled_default : Bool) → SensorDefinition
unfolding create_sensor_definition
create_enum_sensor key node_id polling_group icon entity_category ha_state_class
      entity_registry_enabled_default =
    record (create_sensor_definition node_id key polling_group (codes "10") (codes "enum_text")) {
      ha_device_class = some DeviceClass.enum;
      ha_state_class = ha_state_class;
      icon = some icon;
      entity_category = entity_category;
      entity_registry_enabled_default = entity_registry_enabled_default;
    }

-- Create a diagnostic sensor for text values based on an ENUM type
unfoldable pub create_diagnostic_enum_sensor :
    (key : Text)
    → (node_id : Text) → (polling_group : Text) → (icon : Text)
    → (entity_registry_enabled_default : Bool) → SensorDefinition
unfolding create_sensor_definition
create_diagnostic_enum_sensor key node_id polling_group icon entity_registry_enabled_default =
    record (create_sensor_definition node_id key polling_group (codes "10") (codes "enum_text")) {
      ha_device_class = some DeviceClass.enum;
      ha_native_unit_of_measurement = none;
      ha_state_class = none;
      icon = some icon;
      entity_category = some diagnostic;
      entity_registry_enabled_default = entity_registry_enabled_default;
    }

-- Create a writable number entity
unfoldable pub create_number_entity :
    (key : Text)
    → (node_id : Text) → (polling_group : Text) → (icon : Text) → (setter_type : Text)
    → (setter_min_val : ℤ) → (setter_max_val : ℤ) → (setter_step : ℤ)
    → (ha_native_unit_of_measurement : Option HaUnit) → (ha_device_class : Option DeviceClass)
    → (hdg_formatter : Option Text) → (ha_state_class : Option StateClass)
    → (entity_registry_enabled_default : Bool) → SensorDefinition
unfolding create_sensor_definition
create_number_entity key node_id polling_group icon setter_type setter_min_val setter_max_val
      setter_step ha_native_unit_of_measurement ha_device_class hdg_formatter ha_state_class
      entity_registry_enabled_default =
    record (create_sensor_definition node_id key polling_group (codes "2") (codes "float")) {
      ha_platform = codes "number";
      writable = true;
      entity_category = some config;
      icon = some icon;
      setter_type = some setter_type;
      setter_min_val = some setter_min_val;
      setter_max_val = some setter_max_val;
      setter_step = some setter_step;
      ha_native_unit_of_measurement = ha_native_unit_of_measurement;
      ha_device_class = ha_device_class;
      hdg_formatter = hdg_formatter;
      ha_state_class = ha_state_class;
      entity_registry_enabled_default = entity_registry_enabled_default;
    }

-- Create a sensor for plain text values
unfoldable pub create_text_sensor :
    (key : Text)
    → (node_id : Text) → (polling_group : Text) → (icon : Text) → (parse_as_type : Text)
    → (entity_category : Option EntityCategory) → (ha_state_class : Option StateClass)
    → (entity_registry_enabled_default : Bool) → SensorDefinition
unfolding create_sensor_definition
create_text_sensor key node_id polling_group icon parse_as_type entity_category ha_state_class
      entity_registry_enabled_default =
    record (create_sensor_definition node_id key polling_group (codes "4") parse_as_type) {
      icon = some icon;
      entity_category = entity_category;
      ha_state_class = ha_state_class;
      entity_registry_enabled_default = entity_registry_enabled_default;
    }

-- Create a diagnostic sensor for plain text values
unfoldable pub create_diagnostic_text_sensor :
    (key : Text)
    → (node_id : Text) → (polling_group : Text) → (icon : Text) → (parse_as_type : Text)
    → (entity_registry_enabled_default : Bool) → SensorDefinition
unfolding create_sensor_definition
create_diagnostic_text_sensor key node_id polling_group icon parse_as_type
      entity_registry_enabled_default =
    record (create_sensor_definition node_id key polling_group (codes "4") parse_as_type) {
      ha_device_class = none;
      ha_native_unit_of_measurement = none;
      icon = some icon;
      entity_category = some diagnostic;
      entity_registry_enabled_default = entity_registry_enabled_default;
    }

-- Create a general-purpose sensor for cases not covered by other factories
unfoldable pub create_general_sensor :
    (key : Text)
    → (node_id : Text) → (polling_group : Text) → (hdg_data_type : Text) → (parse_as_type : Text)
    → (icon : Text) → (hdg_formatter : Option Text) → (ha_device_class : Option DeviceClass)
    → (ha_native_unit_of_measurement : Option HaUnit) → (ha_state_class : Option StateClass)
    → (entity_category : Option EntityCategory) → (entity_registry_enabled_default : Bool)
    → SensorDefinition
unfolding create_sensor_definition
create_general_sensor key node_id polling_group hdg_data_type parse_as_type icon hdg_formatter
      ha_device_class ha_native_unit_of_measurement ha_state_class entity_category
      entity_registry_enabled_default =
    record (create_sensor_definition node_id key polling_group hdg_data_type parse_as_type) {
      hdg_formatter = hdg_formatter;
      ha_device_class = ha_device_class;
      ha_native_unit_of_measurement = ha_native_unit_of_measurement;
      ha_state_class = ha_state_class;
      icon = some icon;
      entity_category = entity_category;
      entity_registry_enabled_default = entity_registry_enabled_default;
    }

-- Create a sensor for software/firmware version information
unfoldable pub create_version_sensor :
    (key : Text)
    → (node_id : Text) → (polling_group : Text) → (icon : Text)
    → (entity_registry_enabled_default : Bool) → SensorDefinition
unfolding create_sensor_definition
create_version_sensor key node_id polling_group icon entity_registry_enabled_default =
    record (create_sensor_definition node_id key polling_group (codes "2") (codes "text")) {
      hdg_formatter = some (codes "iVERSION");
      ha_device_class = none;
      ha_native_unit_of_measurement = none;
      ha_state_class = none;
      icon = some icon;
      entity_category = some diagnostic;
      entity_registry_enabled_default = entity_registry_enabled_default;
    }

-- Create a writable select entity
unfoldable pub create_select_entity :
    (key : Text)
    → (node_id : Text) → (polling_group : Text) → (icon : Text) → (options : List Text)
    → (entity_category : Option EntityCategory) → (uppercase_value : Option Bool)
    → (entity_registry_enabled_default : Bool) → SensorDefinition
unfolding create_sensor_definition
create_select_entity key node_id polling_group icon options entity_category uppercase_value
      entity_registry_enabled_default =
    record (create_sensor_definition node_id key polling_group (codes "10") (codes "text")) {
      ha_platform = codes "select";
      writable = true;
      entity_category = entity_category;
      icon = some icon;
      options = some options;
      uppercase_value = uppercase_value;
      ha_device_class = some DeviceClass.enum;
      entity_registry_enabled_default = entity_registry_enabled_default;
    }
