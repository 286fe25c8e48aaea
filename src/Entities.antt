-- ===== src/Entities.antt =====
-- What an entity shows and sends: custom_components/hdg_boiler/entity.py,
-- custom_components/hdg_boiler/sensor.py, custom_components/hdg_boiler/number.py and
-- custom_components/hdg_boiler/select.py. No definition has a `value_fn` or a `set_fn`, so a value
-- is always parsed and always goes through the coordinator's gateway. Reading an optimistic value
-- may drop it, which no reader can tell; the store that a reading leaves is left out.
mod Examples
pub mod Chosen
pub mod Selected
pub mod Rounded
use hdg_bavaria_homeassistan.Prelude.{
  ℕ, zero, suc, ◌+◌, ◌-◌, ◌*◌, ◌/◌, ◌==◌, Text, codes, Bool, true, false, not, ◌&&◌, ◌||◌, Option,
  none, some, List, [], ◌∷◌, text_eq, if◌then◌else◌,
}
use hdg_bavaria_homeassistan.Prelude.Dict.{Dict, lookup}
use hdg_bavaria_homeassistan.Models.{
  ℤ, pos, negsuc, SensorDefinition, DeviceClass, StateClass, truthy,
}
use hdg_bavaria_homeassistan.Integers.{int_text, times}
use hdg_bavaria_homeassistan.Texts.{strip, lower_text, upper_text, contains}
use hdg_bavaria_homeassistan.NodeId.{strip_hdg_node_suffix}
use hdg_bavaria_homeassistan.Polling.{is_listed}
use hdg_bavaria_homeassistan.Optimistic.{get_held}
use hdg_bavaria_homeassistan.Setting.{Setting, async_set_node_value}
use hdg_bavaria_homeassistan.Enumerations.{resolve_hdg_enum_key}
use hdg_bavaria_homeassistan.Enumerations.Tables.{hdg_enum_text_to_key_mappings}
use hdg_bavaria_homeassistan.Validation.{
  Number, finite, infinite, nan, Problem, overflow_error, value_error, invalid_operation,
  service_validation, home_assistant_error, Checked, ok, raises, ◌and_then◌, one,
}
use hdg_bavaria_homeassistan.Parsers.{
  Value, nothing, text_value, int_value, float_value, moment, PythonTexts, parse_sensor_value,
  value_text, hdg_datetime_special_text,
}

-- `self._node_id`
abbrev pub entity_node : SensorDefinition → Text
entity_node d = strip_hdg_node_suffix d.hdg_node_id

-- HDG_UNAVAILABLE_STRINGS
abbrev pub hdg_unavailable_strings : List Text
hdg_unavailable_strings = codes "---" ∷ codes "unavailable" ∷ codes "none" ∷ codes "n/a" ∷ []

-- `parse_as in ("int", "float")`
abbrev is_number_type : Text → Bool
is_number_type parse_as = text_eq parse_as (codes "int") || text_eq parse_as (codes "float")

-- the lower-case form for a definition with `uppercase_value`
shown_option : Option Bool → Text → Text
unfolding lower_text
shown_option (some true) s = lower_text s
shown_option (some false) s = s
shown_option none s = s

-- the value to send for an option
pub sent_option : Option Bool → Text → Text
unfolding upper_text
sent_option (some true) s = upper_text s
sent_option (some false) s = s
sent_option none s = s

-- `self.native_step == 1.0`, in tenths, where a missing step is 1.0
pub steps_by_one : Option ℤ → Bool
steps_by_one none = true
steps_by_one (some (pos t)) = t == 10
steps_by_one (some (negsuc t)) = false

-- `math.floor(value)` of a number of units
pub floor_units : ℕ → ℤ → ℤ
floor_units epsilon (pos v) = pos (v / one epsilon)
floor_units epsilon (negsuc v) = negsuc (v / one epsilon)

module _ {M : Type 0} (python : PythonTexts M) (epsilon : ℕ) where
  -- `math.floor(value + 0.5)`
  pub round_half_up : ℤ → ℤ
  unfolding floor_units
  round_half_up v = floor_units epsilon (python.plus_half v)

  pub floor_half : Number → Checked ℤ
  unfolding round_half_up
  floor_half (finite v) = ok (round_half_up v)
  floor_half (infinite negative) = raises overflow_error
  floor_half nan = raises value_error

  -- A number as the entity shows it.
  shown_number : Bool → Number → Checked (Value M)
  unfolding floor_half
  shown_number true v = floor_half v and_then λ z. ok (int_value z)
  shown_number false v = ok (float_value v)

module _ {M : Type 0} where
  -- `_is_value_unavailable`
  pub is_value_unavailable : Value M → Bool
  unfolding lower_text strip is_listed
  is_value_unavailable nothing = false
  is_value_unavailable (text_value s) = is_listed (strip (lower_text s)) hdg_unavailable_strings
  is_value_unavailable (int_value z) = false
  is_value_unavailable (float_value v) = false
  is_value_unavailable (moment t) = false

  -- the stored value, if it is there and is not None
  stored_value : Option (Value M) → Value M
  stored_value none = nothing
  stored_value (some v) = v

  is_there : Value M → Bool
  is_there nothing = false
  is_there (text_value s) = true
  is_there (int_value z) = true
  is_there (float_value v) = true
  is_there (moment t) = true

  -- `HdgNodeEntity.available`; the coordinator's data are a dict from its start
  pub available : Bool → SensorDefinition → Setting (Value M) → Bool
  unfolding is_there stored_value is_value_unavailable lookup strip_hdg_node_suffix
  available last_update_success d s =
      let raw_value = stored_value (lookup (entity_node d) s.node_values) in
      last_update_success && is_there raw_value && not (is_value_unavailable raw_value)

  -- `HdgBoilerSensor.device_class`
  is_special_text : Value M → Bool
  unfolding contains lower_text
  is_special_text nothing = false
  is_special_text (text_value s) = contains (lower_text s) hdg_datetime_special_text
  is_special_text (int_value z) = false
  is_special_text (float_value v) = false
  is_special_text (moment t) = false

  unfoldable sensor_device_class : SensorDefinition → Setting (Value M) → Option DeviceClass
  unfolding is_special_text stored_value lookup strip_hdg_node_suffix
  sensor_device_class d s =
      if is_special_text (stored_value (lookup (entity_node d) s.node_values))
      then none
      else d.ha_device_class

-- `HdgBoilerSelect.current_option`
pub resolved_option : Option (Dict Text) → Text → Text
unfolding resolve_hdg_enum_key
resolved_option none processed = processed
resolved_option (some table) processed = elim (resolve_hdg_enum_key processed table) [
  | none ↦ processed
  | some key ↦ key
]

pub table_for : Text → Option (Dict Text)
unfolding lookup
table_for [] = none
table_for (c ∷ key) = lookup (c ∷ key) hdg_enum_text_to_key_mappings

option_of_value : SensorDefinition → Option Text → Option Text
unfolding resolved_option table_for shown_option
option_of_value d none = none
option_of_value d (some val) =
    some (shown_option d.uppercase_value (resolved_option (table_for d.translation_key) val))

optimistic_or_option : SensorDefinition → Option Text → Option Text → Option Text
unfolding shown_option
optimistic_or_option d none rest = rest
optimistic_or_option d (some opt) rest = some (shown_option d.uppercase_value opt)

-- The texts of a reading: Python's libraries, the units of 1e-9, and the zone of the options.
module _ {M : Type 0} (python : PythonTexts M) (epsilon : ℕ) (timezone : Text) where
  parse_stored : SensorDefinition → Value M → Value M
  unfolding parse_sensor_value value_text
  parse_stored d v = parse_sensor_value python epsilon timezone (value_text python epsilon v) d

  stored_or_parsed : SensorDefinition → Value M → Value M
  unfolding parse_stored
  stored_or_parsed d nothing = parse_stored d nothing
  stored_or_parsed d (text_value s) = parse_stored d (text_value s)
  stored_or_parsed d (int_value z) =
      if is_number_type d.parse_as_type then int_value z else parse_stored d (int_value z)
  stored_or_parsed d (float_value v) =
      if is_number_type d.parse_as_type then float_value v else parse_stored d (float_value v)
  stored_or_parsed d (moment t) = parse_stored d (moment t)

  -- `_get_value`
  pub get_value : SensorDefinition → Setting (Value M) → Value M
  unfolding stored_or_parsed stored_value lookup strip_hdg_node_suffix
  get_value d s = stored_or_parsed d (stored_value (lookup (entity_node d) s.node_values))

  -- `HdgBoilerSensor.native_value`
  unfoldable sensor_native_value : Bool → SensorDefinition → Setting (Value M) → Value M
  unfolding get_value available
  sensor_native_value success d s = if available success d s then get_value d s else nothing

  -- `HdgBoilerNumber.native_value`
  number_of_value : Bool → Value M → Checked (Value M)
  unfolding shown_number times
  number_of_value by_one nothing = ok nothing
  number_of_value by_one (text_value s) = ok nothing
  number_of_value by_one (int_value z) =
      shown_number python epsilon by_one (finite (times z (one epsilon)))
  number_of_value by_one (float_value v) = shown_number python epsilon by_one v
  number_of_value by_one (moment t) = ok nothing

  -- an optimistic value that is no number is passed over: ValueError and TypeError are caught
  or_number : Checked (Value M) → Checked (Value M) → Checked (Value M)
  or_number (ok v) rest = ok v
  or_number (raises value_error) rest = rest
  or_number (raises overflow_error) rest = raises overflow_error
  or_number (raises invalid_operation) rest = raises invalid_operation
  or_number (raises (service_validation r)) rest = raises (service_validation r)
  or_number (raises home_assistant_error) rest = raises home_assistant_error

  optimistic_or_number : Bool → Option Text → Checked (Value M) → Checked (Value M)
  unfolding or_number shown_number
  optimistic_or_number by_one none rest = rest
  optimistic_or_number by_one (some text) rest =
      or_number (python.float_of text and_then shown_number python epsilon by_one) rest

  unfoldable number_native_value :
      Bool → ℕ → SensorDefinition → Setting (Value M) → Checked (Value M)
  unfolding optimistic_or_number number_of_value steps_by_one available get_value get_held
      strip_hdg_node_suffix
  number_native_value success now d s =
      let by_one = steps_by_one d.setter_step in
      if available success d s
      then optimistic_or_number by_one (get_held now (entity_node d) s.optimistic).0
          (number_of_value by_one (get_value d s))
      else ok nothing

  -- `HdgBoilerNumber.async_set_native_value`, through `_set_value`
  rounded_text : Bool → Number → Checked Text
  unfolding floor_half int_text
  rounded_text true v = floor_half python epsilon v and_then λ z. ok (int_text z)
  rounded_text false v = ok (python.float_text v)

  set_when : ℕ → Text → Checked Text → Setting (Value M) → Checked Unit × Setting (Value M)
  set_when now node_id (ok text) s = (ok tt, async_set_node_value now node_id text s)
  set_when now node_id (raises p) s = (raises p, s)

  pub async_set_native_value :
      ℕ → Number → SensorDefinition → Setting (Value M) → Checked Unit × Setting (Value M)
  unfolding set_when rounded_text steps_by_one strip_hdg_node_suffix
  async_set_native_value now value d s =
      set_when now (entity_node d) (rounded_text (steps_by_one d.setter_step) value) s

  pub current_option : Bool → ℕ → SensorDefinition → Setting (Value M) → Option Text
  unfolding optimistic_or_option option_of_value available get_value get_held value_text
      strip_hdg_node_suffix
  current_option success now d s =
      if available success d s
      then optimistic_or_option d (get_held now (entity_node d) s.optimistic).0
          (option_of_value d (value_text python epsilon (get_value d s)))
      else none

-- `HdgBoilerSelect.async_select_option`; no options are the empty list
pub options_of : SensorDefinition → List Text
options_of d = elim d.options [ none ↦ [] | some options ↦ options ]

pub async_select_option :
    {M : Type 0} → ℕ → Text → SensorDefinition → Setting (Value M) → Setting (Value M)
unfolding options_of sent_option is_listed strip_hdg_node_suffix
async_select_option now option d s =
    if is_listed option (options_of d)
    then async_set_node_value now (entity_node d) (sent_option d.uppercase_value option) s
    else s
