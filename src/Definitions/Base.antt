-- ===== src/Definitions/Base.antt =====
-- What the rows of custom_components/hdg_boiler/definitions.py share.
use hdg_bavaria_homeassistan.Prelude.{ℕ, Text, codes, true, false, none, some, List, [], ◌∷◌}
use hdg_bavaria_homeassistan.Models.{SensorDefinition}

-- the items of a dictionary literal
abbrev pub Items {ℓ} : Type ℓ → Type ℓ
Items A = List (Text × A)

-- `group_1` and on: POLLING_GROUP_KEYS["POLLING_GROUP_1"] and on
abbrev pub polling_group_definitions : Items ℕ
polling_group_definitions =
    (codes "group_1", 15)
    ∷ (codes "group_2", 304)
    ∷ (codes "group_3", 86410)
    ∷ (codes "group_4", 86420)
    ∷ (codes "group_5", 86430)
    ∷ []

abbrev pub polling_group_1 : Text
polling_group_1 = codes "group_1"

abbrev pub polling_group_2 : Text
polling_group_2 = codes "group_2"

abbrev pub polling_group_3 : Text
polling_group_3 = codes "group_3"

abbrev pub polling_group_4 : Text
polling_group_4 = codes "group_4"

abbrev pub polling_group_5 : Text
polling_group_5 = codes "group_5"

abbrev pub hk_operating_mode_options : List Text
hk_operating_mode_options =
    codes "normal" ∷ codes "tag" ∷ codes "nacht" ∷ codes "party" ∷ codes "sommer" ∷ []

abbrev pub ext_wq_operating_mode_options : List Text
ext_wq_operating_mode_options = codes "aus" ∷ codes "ein" ∷ codes "auto_ein" ∷ codes "auto_aus" ∷ []

-- `_with_group`
unfoldable pub with_group : SensorDefinition → Text → SensorDefinition
with_group definition group = record definition { component_group = some group }

-- `_create_sensor_definition` with its required arguments; the others are set by record update
unfoldable pub create_sensor_definition :
    (hdg_node_id translation_key polling_group hdg_data_type parse_as_type : Text)
    → SensorDefinition
create_sensor_definition hdg_node_id translation_key polling_group hdg_data_type parse_as_type =
    record {
      hdg_node_id = hdg_node_id;
      translation_key = translation_key;
      polling_group = polling_group;
      ha_platform = codes "sensor";
      writable = false;
      entity_registry_enabled_default = true;
      hdg_data_type = hdg_data_type;
      parse_as_type = parse_as_type;
      hdg_formatter = none;
      ha_device_class = none;
      ha_native_unit_of_measurement = none;
      ha_state_class = none;
      icon = none;
      entity_category = none;
      setter_type = none;
      setter_min_val = none;
      setter_max_val = none;
      setter_step = none;
      options = none;
      uppercase_value = none;
      component_group = none;
    }
