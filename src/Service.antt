-- ===== src/Service.antt =====
-- custom_components/hdg_boiler/services.py: the handlers of the services `set_node_value` and
-- `get_node_value`.
mod Examples
pub mod Sent
use hdg_bavaria_homeassistan.Prelude.{ℕ, Text, Bool, Option, none, some, if◌then◌else◌}
use hdg_bavaria_homeassistan.Prelude.Dict.{Dict, lookup}
use hdg_bavaria_homeassistan.Texts.{strip}
use hdg_bavaria_homeassistan.Models.{SensorDefinition, truthy}
use hdg_bavaria_homeassistan.Registry.{get_settable_number_definition_by_base_node_id}
use hdg_bavaria_homeassistan.Setting.{Setting, async_set_node_value}
use hdg_bavaria_homeassistan.Validation.{
  Number, Reason, missing_node_id, missing_value, not_settable, not_found, Problem,
  service_validation, overflow_error, invalid_operation, value_error, home_assistant_error, Checked,
  ok, raises, ◌and_then◌, PythonFloats, coerce_value_to_numeric_type, validate_value_range_and_step,
  format_value_for_api,
}

-- `call.data`; a value has the type `R`
pub record ServiceCall (R : Type 0) : Type 0 where
  pub node_id : Option R
  pub value : Option R

-- `_get_settable_definition`
found_definition : Option SensorDefinition → Checked SensorDefinition
found_definition none = raises (service_validation not_settable)
found_definition (some definition) = ok definition

pub get_settable_definition : Text → Dict SensorDefinition → Checked SensorDefinition
unfolding found_definition
get_settable_definition node_id definitions =
    found_definition (get_settable_number_definition_by_base_node_id node_id definitions)

module _ {R : Type 0} (python : PythonFloats R) where
  -- `_validate_and_get_node_id`
  pub validate_and_get_node_id : Option R → Checked Text
  unfolding strip
  validate_and_get_node_id none = raises (service_validation missing_node_id)
  validate_and_get_node_id (some node_id) = ok (strip (python.to_text node_id))

  require_value : Option R → Checked R
  require_value none = raises (service_validation missing_value)
  require_value (some value) = ok value

  -- `validate_set_node_service_call`
  pub validate_set_node_service_call : ServiceCall R → Checked (Text × R)
  unfolding validate_and_get_node_id require_value
  validate_set_node_service_call call = validate_and_get_node_id call.node_id and_then λ node_id.
      require_value call.value and_then λ value. ok (node_id, value)

module _ {R : Type 0} (python : PythonFloats R) (epsilon : ℕ) where
  -- `_validate_and_coerce_value`
  pub validate_and_coerce_value : R → SensorDefinition → Checked Number
  unfolding coerce_value_to_numeric_type validate_value_range_and_step
  validate_and_coerce_value raw_value definition =
      coerce_value_to_numeric_type python epsilon raw_value definition.setter_type and_then λ v.
      validate_value_range_and_step epsilon v definition.setter_min_val definition.setter_max_val
        definition.setter_step
      and_then λ _. ok v

  format_as : Number → Option Text → Checked Text
  unfolding format_value_for_api
  format_as v none = raises value_error
  format_as v (some setter_type) = format_value_for_api python epsilon v setter_type

  -- `_validate_and_prepare_node_value`, without the name for the log
  pub validate_and_prepare_node_value :
      ServiceCall R → Dict SensorDefinition → Checked (Text × Text)
  unfolding validate_set_node_service_call get_settable_definition validate_and_coerce_value
      format_as
  validate_and_prepare_node_value call definitions =
      validate_set_node_service_call python call and_then λ (node_id, raw_value).
      get_settable_definition node_id definitions and_then λ definition.
      validate_and_coerce_value raw_value definition and_then λ v.
      format_as v definition.setter_type and_then λ text. ok (node_id, text)

-- the `except` clauses
pub handled : Problem → Problem
handled (service_validation r) = service_validation r
handled overflow_error = home_assistant_error
handled invalid_operation = home_assistant_error
handled value_error = home_assistant_error
handled home_assistant_error = home_assistant_error

module _ {V : Type 0} where
  send_prepared : ℕ → Checked (Text × Text) → Setting V → Checked Unit × Setting V
  unfolding handled
  send_prepared now (ok (node_id, text)) s = (ok tt, async_set_node_value now node_id text s)
  send_prepared now (raises p) s = (raises (handled p), s)

  -- `async_handle_set_node_value`; the coordinator's gateway always reports success
  pub async_handle_set_node_value :
      {R : Type 0}
      → PythonFloats R
      → (epsilon now : ℕ) → ServiceCall R
      → Dict SensorDefinition
      → Setting V
      → Checked Unit × Setting V
  unfolding send_prepared validate_and_prepare_node_value
  async_handle_set_node_value python epsilon now call definitions s =
      send_prepared now (validate_and_prepare_node_value python epsilon call definitions) s

  -- a value of the coordinator's data, where `is_none` tells a stored None
  found_value : (V → Bool) → Text → Option V → Checked (Text × V)
  found_value is_none node_id none = raises (service_validation not_found)
  found_value is_none node_id (some v) =
      if is_none v then raises (service_validation not_found) else ok (node_id, v)

  -- `async_handle_get_node_value`; the coordinator's data are a dict from its start
  async_handle_get_node_value :
      {R : Type 0} → PythonFloats R → (V → Bool) → ServiceCall R → Setting V → Checked (Text × V)
  unfolding found_value validate_and_get_node_id lookup
  async_handle_get_node_value python is_none call s =
      validate_and_get_node_id python call.node_id and_then λ node_id.
      found_value is_none node_id (lookup node_id s.node_values)
