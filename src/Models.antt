-- ===== src/Models.antt =====
-- custom_components/hdg_boiler/models.py: commands for the boiler's API, and
-- the definition of an entity. Device classes, state classes, categories and units are names of
-- Home Assistant, of which the members that the definitions use are listed. A number of a setter
-- counts tenths.
use hdg_bavaria_homeassistan.Prelude.{ℕ, Text, Bool, true, false, Option, none, some, List, []}

pub data CommandType : Type 0 where
  get_nodes set_node : CommandType

-- `cmd_type == CommandType.SET_NODE`
abbrev pub is_set_node : CommandType → Bool
is_set_node CommandType.get_nodes = false
is_set_node CommandType.set_node = true

pub record HdgCommand : Type 0 where
  pub cmd_type : CommandType
  pub context_key : Option Text
  pub node_id : Option Text
  pub node_ids : Option (List Text)
  pub value : Option Text

-- A text that Python takes for true: `None` and the empty text are not.
abbrev pub truthy : Option Text → Option Text
truthy none = none
truthy (some []) = none
truthy (some key) = some key

pub data DeviceClass : Type 0 where
  temperature energy timestamp power battery volume enum duration pressure weight : DeviceClass

pub data StateClass : Type 0 where
  measurement total total_increasing : StateClass

pub data EntityCategory : Type 0 where
  diagnostic config : EntityCategory

-- the members of Home Assistant's unit enumerations, with PERCENTAGE
pub data HaUnit : Type 0 where
  celsius kelvin pa percentage kilograms tonnes liters seconds minutes hours : HaUnit
  kilo_watt kilo_watt_hour mega_watt_hour : HaUnit

-- `pos n` is n, `negsuc n` is -(n + 1)
pub data ℤ : Type 0 where
  pos negsuc : ℕ → ℤ

-- `none` stands for a key that the dictionary lacks
pub record SensorDefinition : Type 0 where
  pub hdg_node_id : Text
  pub translation_key : Text
  pub polling_group : Text
  pub ha_platform : Text
  pub writable : Bool
  pub entity_registry_enabled_default : Bool
  pub hdg_data_type : Text
  pub parse_as_type : Text
  pub hdg_formatter : Option Text
  pub ha_device_class : Option DeviceClass
  pub ha_native_unit_of_measurement : Option HaUnit
  pub ha_state_class : Option StateClass
  pub icon : Option Text
  pub entity_category : Option EntityCategory
  pub setter_type : Option Text
  pub setter_min_val : Option ℤ
  pub setter_max_val : Option ℤ
  pub setter_step : Option ℤ
  pub options : Option (List Text)
  pub uppercase_value : Option Bool
  pub component_group : Option Text
