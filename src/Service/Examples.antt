-- ===== src/Service/Examples.antt =====
-- A setter of 10 to 90 by 5: custom_components/hdg_boiler/services.py
use hdg_bavaria_homeassistan.Prelude.{◌≡◌, ◌↔◌, ◌⊎◌, refl, Text, codes, some, [], ◌∷◌, text_eq}
use hdg_bavaria_homeassistan.Prelude.Dict.{Dict}
use hdg_bavaria_homeassistan.Texts.{strip, is_decimal}
use hdg_bavaria_homeassistan.Models.{ℤ, pos, SensorDefinition}
use hdg_bavaria_homeassistan.Integers.{times, int_text}
use hdg_bavaria_homeassistan.Definitions.Base.{create_sensor_definition}
use hdg_bavaria_homeassistan.Registry.{get_settable_number_definition_by_base_node_id}
use hdg_bavaria_homeassistan.Setting.{init_setting, async_set_node_value}
use hdg_bavaria_homeassistan.Validation.{Problem, ok, raises, finite, one, PythonFloats}
use hdg_bavaria_homeassistan.Service.{
  ServiceCall, validate_and_prepare_node_value, async_handle_set_node_value,
}
use hdg_bavaria_homeassistan.Service.Sent.{
  IsAllowed, IsReported, sends, service_sends_whole, set_service_answers,
}

-- Callers that give whole numbers only.
abbrev whole_floats : PythonFloats ℤ
whole_floats = record {
  to_float = λ z. ok (finite (times z (one 1)));
  to_text = int_text;
  format_fixed = λ decimals v. [];
}

abbrev pump_minimum : SensorDefinition
pump_minimum =
    record (create_sensor_definition (codes "7126T") (codes "pump_minimum") (codes "group_2")
      (codes "2") (codes "int")) {
        ha_platform = codes "number";
        setter_type = some (codes "int");
        setter_min_val = some (pos 100);
        setter_max_val = some (pos 900);
        setter_step = some (pos 50);
      }

abbrev one_setter : Dict SensorDefinition
one_setter = (codes "pump_minimum", pump_minimum) ∷ []

abbrev set_twenty : ServiceCall ℤ
set_twenty = record { node_id = some (pos 7126); value = some (pos 20) }

service_sends_whole_example :
    (async_handle_set_node_value whole_floats 1 1000 set_twenty one_setter (init_setting {V = Text})
      ≡ (ok tt, async_set_node_value 1000 (codes "7126") (codes "20") init_setting))
    ↔ IsAllowed (pos 100) (pos 900) 49 (pos 20)
unfolding get_settable_number_definition_by_base_node_id text_eq strip int_text is_decimal
    create_sensor_definition
service_sends_whole_example =
    service_sends_whole whole_floats 0 (pos 7126) (pos 20) one_setter pump_minimum (pos 100)
      (pos 900) (pos 20) 49 1000 init_setting refl (refl, refl, refl, refl) refl

set_service_answers_example :
    ((node_id : Text) × (text : Text) × (validate_and_prepare_node_value whole_floats 1 set_twenty
          one_setter
        ≡ sends node_id text)
      × (async_handle_set_node_value whole_floats 1 1000 set_twenty one_setter
            (init_setting {V = Text})
          ≡ (ok tt, async_set_node_value 1000 node_id text init_setting)))
    ⊎ ((p : Problem) × IsReported p
        × (async_handle_set_node_value whole_floats 1 1000 set_twenty one_setter
              (init_setting {V = Text})
            ≡ (raises p, init_setting)))
set_service_answers_example =
    set_service_answers whole_floats 1 1000 set_twenty one_setter init_setting
