-- ===== src/Parsers.antt =====
-- custom_components/hdg_boiler/helpers/parsers.py: from the text of a node to a value. A float is
-- the `Number` of Validation. What the code asks of Python's html, float, zoneinfo and datetime is
-- the interface `PythonTexts`; `\d` and case are those of Latin-1.
mod Examples
pub mod Units
pub mod Extract
pub mod Numeric
pub mod Stripped
pub mod Search
pub mod Kept
use hdg_bavaria_homeassistan.Prelude.{
  ℕ, zero, suc, ◌+◌, ◌/◌, Text, codes, Bool, true, false, not, ◌&&◌, ◌||◌, Option, none, some, List,
  [], ◌∷◌, ◌++◌, any, ltb, ◌==◌, text_eq, if◌then◌else◌,
}
use mathlib.Core.List.{reverse}
use hdg_bavaria_homeassistan.Prelude.Dict.{lookup, Dict}
use hdg_bavaria_homeassistan.Models.{ℤ, SensorDefinition, truthy}
use hdg_bavaria_homeassistan.Integers.{pos_part, neg_part, sub_ℕ, int_text}
use hdg_bavaria_homeassistan.Texts.{first_chars, is_decimal, strip, lstrip, lower_text, contains}
use hdg_bavaria_homeassistan.Enumerations.{resolve_hdg_enum_key}
use hdg_bavaria_homeassistan.Enumerations.Tables.{hdg_enum_text_to_key_mappings}
use hdg_bavaria_homeassistan.Validation.{
  Number, finite, infinite, nan, Problem, overflow_error, value_error, invalid_operation,
  service_validation, home_assistant_error, Checked, ok, raises, one,
}
use hdg_bavaria_homeassistan.Parsers.Units.{common_units}
use hdg_bavaria_homeassistan.Parsers.Extract.{
  drop_spaces, has, remove, comma_to_dot, rfind, normalize_spaceless, normalize_numeric_string,
  is_unit, strip_units, leading_digits, after_digits, fraction, match_unsigned, with_sign,
  match_number, search_number, extract_numeric_string,
}

-- A value of a node: None, a str, an int, a float or a datetime.
pub data Value (M : Type 0) : Type 0 where
  nothing : Value M
  text_value : Text → Value M
  int_value : ℤ → Value M
  float_value : Number → Value M
  moment : M → Value M

-- Python's libraries
pub record PythonTexts (M : Type 0) : Type 0 where
  -- `html.unescape`
  pub unescape : Text → Text
  -- `float(text)`
  pub float_of : Text → Checked Number
  -- `str` of a float and of a datetime
  pub float_text : Number → Text
  -- `value + 0.5` of a finite float, which is a float again: the nearest one to the sum
  pub plus_half : ℤ → ℤ
  pub moment_text : M → Text
  -- Does ZoneInfo know the name?
  pub is_zone : Text → Bool
  -- `strptime` with the two formats, made aware of the zone
  pub parse_local : Text → Text → Option M
  pub parse_with_offset : Text → Text → Option M

-- `int(value)` of a float
truncate : ℕ → Number → Checked ℤ
truncate epsilon (finite v) = ok (sub_ℕ (pos_part v / one epsilon) (neg_part v / one epsilon))
truncate epsilon (infinite negative) = raises overflow_error
truncate epsilon nan = raises value_error

-- HDG_DATETIME_SPECIAL_TEXT
abbrev pub hdg_datetime_special_text : Text
hdg_datetime_special_text = codes "größer 7 tage"

-- `value[:-3] + value[-2:]` where the last six characters have a colon, on the text turned round
cut_third : Text → Text
cut_third (a ∷ b ∷ c ∷ s) = a ∷ b ∷ s
cut_third s = s

pub without_offset_colon : Text → Text
unfolding has first_chars cut_third
without_offset_colon s =
    if has b':' (first_chars 6 (reverse s)) then reverse (cut_third (reverse s)) else s

-- `_convert_enum_text_to_key`
map_key : Text → Option Text → Text
map_key value none = value
map_key value (some key) = key

map_by_table : Text → Option (Dict Text) → Text
unfolding map_key resolve_hdg_enum_key
map_by_table value none = value
map_by_table value (some enum_map) = map_key value (truthy (resolve_hdg_enum_key value enum_map))

convert_enum_text_to_key : Text → Text → Text
unfolding map_by_table lookup
convert_enum_text_to_key value [] = value
convert_enum_text_to_key value (c ∷ key) =
    map_by_table value (lookup (c ∷ key) hdg_enum_text_to_key_mappings)

-- the parsers of `_PARSER_MAP`
pub data Parser : Type 0 where
  int_parser float_parser enum_parser datetime_parser text_parser : Parser

abbrev parser_map : Dict Parser
parser_map =
    (codes "int", int_parser)
    ∷ (codes "float", float_parser)
    ∷ (codes "enum_text", enum_parser)
    ∷ (codes "hdg_datetime_or_text", datetime_parser)
    ∷ (codes "text", text_parser)
    ∷ (codes "allow_empty_string", text_parser)
    ∷ []

module _ {M : Type 0} (python : PythonTexts M) (epsilon : ℕ) where
  -- `_parse_number`: ValueError and TypeError give None; other exceptions go on
  caught_number : Checked (Value M) → Checked (Value M)
  caught_number (ok v) = ok v
  caught_number (raises value_error) = ok nothing
  caught_number (raises overflow_error) = raises overflow_error
  caught_number (raises invalid_operation) = raises invalid_operation
  caught_number (raises (service_validation r)) = raises (service_validation r)
  caught_number (raises home_assistant_error) = raises home_assistant_error

  as_int : Checked Number → Checked (Value M)
  unfolding truncate
  as_int (raises p) = raises p
  as_int (ok v) = elim (truncate epsilon v) [ ok z ↦ ok (int_value z) | raises p ↦ raises p ]

  as_float : Checked Number → Checked (Value M)
  as_float (raises p) = raises p
  as_float (ok v) = ok (float_value v)

  parse_int : Text → Checked (Value M)
  unfolding caught_number as_int extract_numeric_string
  parse_int raw_value = elim (extract_numeric_string raw_value) [
    | none ↦ ok nothing
    | some numeric_str ↦ caught_number (as_int (python.float_of numeric_str))
  ]

  parse_float : Text → Checked (Value M)
  unfolding caught_number as_float extract_numeric_string
  parse_float raw_value = elim (extract_numeric_string raw_value) [
    | none ↦ ok nothing
    | some numeric_str ↦ caught_number (as_float (python.float_of numeric_str))
  ]

  -- `_parse_datetime`
  moment_or_nothing : Option M → Value M
  moment_or_nothing none = nothing
  moment_or_nothing (some t) = moment t

  first_moment : Option M → Option M → Value M
  unfolding moment_or_nothing
  first_moment none later = moment_or_nothing later
  first_moment (some t) later = moment t

  parse_datetime : Text → Text → Value M
  unfolding first_moment without_offset_colon contains lower_text
  parse_datetime timezone value =
      if contains (lower_text value) hdg_datetime_special_text
      then text_value value
      else if python.is_zone timezone
      then first_moment (python.parse_local timezone value)
          (python.parse_with_offset timezone (without_offset_colon value))
      else nothing

  run_parser : Option Parser → Text → Text → Text → Checked (Value M)
  unfolding parse_int parse_float parse_datetime convert_enum_text_to_key
  run_parser none timezone key value = ok (text_value value)
  run_parser (some int_parser) timezone key value = parse_int value
  run_parser (some float_parser) timezone key value = parse_float value
  run_parser (some enum_parser) timezone key value =
      ok (text_value (convert_enum_text_to_key value key))
  run_parser (some datetime_parser) timezone key value = ok (parse_datetime timezone value)
  run_parser (some text_parser) timezone key value = ok (text_value value)

  -- the `except` of `parse_sensor_value`
  or_cleaned : Text → Checked (Value M) → Value M
  or_cleaned cleaned (ok v) = v
  or_cleaned cleaned (raises p) = text_value cleaned

  -- `parse_sensor_value`
  unfoldable pub parse_sensor_value : Text → Option Text → SensorDefinition → Value M
  unfolding run_parser or_cleaned strip lookup
  parse_sensor_value timezone none definition = nothing
  parse_sensor_value timezone (some raw_value) definition =
      let cleaned = strip (python.unescape raw_value) in
      or_cleaned cleaned (
        run_parser (lookup definition.parse_as_type parser_map) timezone definition.translation_key
          cleaned)

  -- `str` of a value that is not None
  unfoldable pub value_text : Value M → Option Text
  unfolding int_text
  value_text nothing = none
  value_text (text_value s) = some s
  value_text (int_value z) = some (int_text z)
  value_text (float_value v) = some (python.float_text v)
  value_text (moment t) = some (python.moment_text t)
