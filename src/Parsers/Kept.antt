-- ===== src/Parsers/Kept.antt =====
-- Texts that the parsers of custom_components/hdg_boiler/helpers/parsers.py leave as they are.
use hdg_bavaria_homeassistan.Prelude.{ℕ, ◌≡◌, refl, Text, codes, some, text_eq}
use hdg_bavaria_homeassistan.Prelude.Dict.{lookup}
use hdg_bavaria_homeassistan.Models.{SensorDefinition}
use hdg_bavaria_homeassistan.Texts.{strip}
use hdg_bavaria_homeassistan.Parsers.{
  PythonTexts, text_value, parse_sensor_value, run_parser, or_cleaned,
}

-- A text without entities and without white space around it is the value of a node that is parsed
-- as text.
pub parse_text :
    {M : Type 0} (python : PythonTexts M) (epsilon : ℕ) (timezone s : Text) (d : SensorDefinition)
    → d.parse_as_type ≡ codes "text"
    → python.unescape s ≡ s
    → strip s ≡ s
    → parse_sensor_value python epsilon timezone (some s) d ≡ text_value s
unfolding parse_sensor_value run_parser or_cleaned lookup text_eq
parse_text python epsilon timezone s d is_text plain stripped = rw (is_text, plain, stripped) refl
