-- ===== src/Parsers/Examples.antt =====
-- Texts of the boiler: custom_components/hdg_boiler/helpers/parsers.py
use hdg_bavaria_homeassistan.Prelude.{◌≡◌, refl, codes, none, some, [], text_eq}
use hdg_bavaria_homeassistan.Texts.{is_decimal}
use hdg_bavaria_homeassistan.Parsers.{without_offset_colon}
use hdg_bavaria_homeassistan.Parsers.Extract.{extract_numeric_string}
use hdg_bavaria_homeassistan.Parsers.Units.{common_units}
use hdg_bavaria_homeassistan.Parsers.Stripped.{is_common_unit}
use hdg_bavaria_homeassistan.Parsers.Search.{number_with_unit_is_read}

number_with_unit_is_read_example : extract_numeric_string (codes "21,5 kw") ≡ some (codes "21.5")
unfolding is_decimal is_common_unit
number_with_unit_is_read_example =
    number_with_unit_is_read b'2' b'5' (codes "1") [] (codes "kw") refl refl refl

sign_and_groups : extract_numeric_string (codes "-1.234,5 kWh") ≡ some (codes "-1234.5")
unfolding extract_numeric_string text_eq is_decimal common_units
sign_and_groups = refl

nothing_there : extract_numeric_string (codes " --- ") ≡ none
unfolding extract_numeric_string text_eq
nothing_there = refl

offset : without_offset_colon (codes "2024-01-02 03:04:05+01:00") ≡ codes "2024-01-02 03:04:05+0100"
unfolding without_offset_colon
offset = refl
