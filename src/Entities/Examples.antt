-- ===== src/Entities/Examples.antt =====
-- The mode of an external heat source, and a number:
-- custom_components/hdg_boiler/select.py and custom_components/hdg_boiler/number.py
use hdg_bavaria_homeassistan.Prelude.{
  ◌≡◌, ◌+◌, ◌<◌, refl, codes, false, true, some, none, List, ◌∷◌, [], arith, text_eq,
}
use hdg_bavaria_homeassistan.Texts.{is_decimal}
use hdg_bavaria_homeassistan.Prelude.Dict.{lookup, insert}
use hdg_bavaria_homeassistan.Models.{SensorDefinition, pos}
use hdg_bavaria_homeassistan.Integers.{int_text, ◌+ℤ◌, times}
use hdg_bavaria_homeassistan.Integers.RoundTrip.{read_int}
use hdg_bavaria_homeassistan.Polling.{is_listed}
use hdg_bavaria_homeassistan.Optimistic.{optimistic_grace_period}
use hdg_bavaria_homeassistan.Setting.{returned, end_set, init_setting, async_set_node_value}
use hdg_bavaria_homeassistan.Setting.Meanwhile.{Meanwhile, polled, cleaned, happen_all}
use hdg_bavaria_homeassistan.Definitions.{get_sensor_definitions}
use hdg_bavaria_homeassistan.Definitions.Base.{
  create_sensor_definition, polling_group_2, ext_wq_operating_mode_options, with_group,
}
use hdg_bavaria_homeassistan.Definitions.Factories.{create_select_entity}
use hdg_bavaria_homeassistan.Validation.{finite, one, ok, raises, value_error}
use hdg_bavaria_homeassistan.Parsers.{Value, int_value, text_value, PythonTexts}
use hdg_bavaria_homeassistan.Entities.{
  entity_node, available, current_option, async_select_option, async_set_native_value, sent_option,
  options_of, steps_by_one, number_native_value,
}
use hdg_bavaria_homeassistan.Entities.Selected.{selected_option_is_shown}
use hdg_bavaria_homeassistan.Entities.Rounded.{half, set_number_rounds}

-- Python's functions where texts have no entities, no text is a number and there is no time zone.
abbrev plain_python : PythonTexts Unit
plain_python = record {
  unescape = λ s. s;
  float_of = λ s. raises value_error;
  float_text = λ v. [];
  plus_half = λ v. v +ℤ half 1;
  moment_text = λ t. [];
  is_zone = λ s. false;
  parse_local = λ s f. none;
  parse_with_offset = λ s f. none;
}

abbrev external_mode : SensorDefinition
external_mode =
    with_group
      (create_select_entity (codes "externe_warmequelle_betriebsart") (codes "25001T")
        polling_group_2 (codes "mdi:fire") ext_wq_operating_mode_options none (some true) false)
      (codes "ext_wq")

external_mode-found :
    lookup (codes "externe_warmequelle_betriebsart") (get_sensor_definitions [])
    ≡ some external_mode
unfolding lookup text_eq get_sensor_definitions insert
external_mode-found = refl

-- The boiler still reports the old mode, and the optimistic values are cleaned up.
abbrev one_poll : List (Meanwhile (Value Unit))
one_poll = polled (entity_node external_mode) (text_value (codes "AUS")) ∷ cleaned 5000 ∷ []

selected_option_is_shown_example :
    (available true external_mode (
          happen_all text_value one_poll (
            async_select_option 1000
              (codes "auto_ein")
              external_mode
              (init_setting {V = Value Unit})))
        ≡ true
      → 9000 < 1000 + optimistic_grace_period
      → current_option plain_python 1 (codes "UTC") true 9000 external_mode (
          happen_all text_value one_poll
            (async_select_option 1000 (codes "auto_ein") external_mode init_setting))
        ≡ some (codes "auto_ein"))
    × (current_option plain_python 1 (codes "UTC") true 9000 external_mode (
          end_set text_value
            (record {
              node_id = entity_node external_mode;
              value = sent_option external_mode.uppercase_value (codes "auto_ein");
            })
            none
            (returned true)
            init_setting)
        ≡ some (codes "auto_ein"))
unfolding text_eq is_listed with_group create_select_entity options_of
selected_option_is_shown_example =
    selected_option_is_shown plain_python 1 (codes "UTC") (λ s h. refl) []
      (codes "externe_warmequelle_betriebsart") (codes "auto_ein") external_mode 1000 9000 one_poll
      none init_setting external_mode-found refl refl tt (tt, (omega arith, tt))

abbrev room_target : SensorDefinition
room_target =
    record (create_sensor_definition (codes "6022T") (codes "room_target") (codes "group_2")
      (codes "2") (codes "int")) { setter_type = some (codes "int"); setter_step = some (pos 10) }

-- Python's functions where every text is read as a whole number.
abbrev whole_python : PythonTexts Unit
whole_python = record plain_python { float_of = λ s. ok (finite (times (read_int s) (one 1))) }

abbrev polled_20 : List (Meanwhile (Value Unit))
polled_20 = polled (entity_node room_target) (int_value (pos 20)) ∷ cleaned 5000 ∷ []

-- 21.5 rounds up.
set_number_rounds_example :
    (async_set_native_value whole_python 1
        (codes "UTC")
        1000
        (finite (pos 21_500_000_000))
        room_target
        init_setting
      ≡ (
        ok tt,
        async_set_node_value 1000 (entity_node room_target) (int_text (pos 22)) init_setting,
      ))
    × (number_native_value whole_python 1 (codes "UTC") true 9000 room_target (
          happen_all text_value polled_20
            (async_set_native_value whole_python 1
              (codes "UTC")
              1000
              (finite (pos 21_500_000_000))
              room_target
              init_setting).1)
        ≡ ok (int_value (pos 22)))
unfolding steps_by_one int_text times ◌+ℤ◌ available async_set_native_value happen_all insert
    text_eq create_sensor_definition is_decimal
set_number_rounds_example =
    set_number_rounds whole_python 0 1000 9000 (codes "UTC") (pos 21_500_000_000) (pos 22)
      room_target polled_20 init_setting refl (omega arith, omega arith) refl refl refl tt
      (tt, (omega arith, tt)) (omega arith) refl
