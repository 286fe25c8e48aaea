-- ===== src/Options.antt =====
-- The options of the integration: the form of custom_components/hdg_boiler/config_flow.py, what its
-- two flows make of the answers, and the options that they store. A number counts tenths. The
-- labels of units, the collapsed state of sections and the placeholders of texts are left out.
mod Examples
pub mod Form
use hdg_bavaria_homeassistan.Prelude.{
  ℕ, zero, suc, ◌*◌, Text, codes, Bool, true, false, not, ◌||◌, Option, none, some, List, [], ◌∷◌,
  ◌++◌, map, text_eq, if◌then◌else◌,
}
use hdg_bavaria_homeassistan.Prelude.Dict.{Dict, lookup, insert}
use hdg_bavaria_homeassistan.Texts.{strip}
use hdg_bavaria_homeassistan.Definitions.Base.{polling_group_definitions}

pub data OptionValue : Type 0 where
  no_value : OptionValue
  text_option : Text → OptionValue
  flag : Bool → OptionValue
  tenths : ℕ → OptionValue

-- The selectors, with the minimum, the maximum and the step of a number.
pub data Selector : Type 0 where
  number_box : (minimum maximum step : ℕ) → Selector
  boolean text_line : Selector
  drop_down : List Text → Selector

-- A field of a section: `shown` is the default, or the suggested value of a field without one, and
-- `fallback` what is shown where the option is not stored.
pub record FormField : Type 0 where
  pub key : Text
  pub shown : OptionValue
  pub fallback : OptionValue
  pub selector : Selector
  pub is_suggestion : Bool

-- LOG_LEVELS
abbrev log_levels : List Text
log_levels = codes "DEBUG" ∷ codes "INFO" ∷ codes "WARNING" ∷ codes "ERROR" ∷ []

-- `get(key, default)`
get_option : OptionValue → Option OptionValue → OptionValue
get_option default none = default
get_option default (some v) = v

-- `value or ""`
or_empty : OptionValue → OptionValue
or_empty no_value = text_option []
or_empty (text_option s) = text_option s
or_empty (flag true) = flag true
or_empty (flag false) = text_option []
or_empty (tenths n) = elim n [ zero ↦ text_option [] | suc m ↦ tenths (suc m) ]

pub field : Dict OptionValue → Text → OptionValue → Selector → FormField
unfolding get_option lookup
field opts key default selector = record {
  key = key;
  shown = get_option default (lookup key opts);
  fallback = default;
  selector = selector;
  is_suggestion = false;
}

pub suggested_field : Dict OptionValue → Text → OptionValue → Selector → FormField
unfolding get_option or_empty lookup
suggested_field opts key default selector = record {
  key = key;
  shown = or_empty (get_option default (lookup key opts));
  fallback = default;
  selector = selector;
  is_suggestion = true;
}

components_fields : Dict OptionValue → List FormField
unfolding field
components_fields opts =
    field opts (codes "enable_ww1") (flag false) boolean
    ∷ field opts (codes "enable_ww2") (flag false) boolean
    ∷ field opts (codes "enable_hk2") (flag false) boolean
    ∷ field opts (codes "enable_hk3") (flag false) boolean
    ∷ field opts (codes "enable_hk4") (flag false) boolean
    ∷ field opts (codes "enable_hk5") (flag false) boolean
    ∷ field opts (codes "enable_hk6") (flag false) boolean
    ∷ field opts (codes "enable_solar") (flag false) boolean
    ∷ field opts (codes "enable_puffer_2") (flag false) boolean
    ∷ field opts (codes "enable_ext_wq") (flag false) boolean
    ∷ field opts (codes "enable_lager") (flag false) boolean
    ∷ field opts (codes "enable_netzpumpe_1") (flag false) boolean
    ∷ field opts (codes "enable_netzpumpe_2") (flag false) boolean
    ∷ field opts (codes "enable_netzpumpe_3") (flag false) boolean
    ∷ []

puffer_fields : Dict OptionValue → List FormField
unfolding suggested_field
puffer_fields opts =
    suggested_field opts (codes "puffer_mitte_oben_node_id") (text_option []) text_line
    ∷ suggested_field opts (codes "puffer_mitte_unten_node_id") (text_option []) text_line
    ∷ []

connection_fields : Dict OptionValue → List FormField
unfolding field
connection_fields opts =
    field opts (codes "api_timeout") (tenths 150) (number_box 50 1200 10)
    ∷ field opts (codes "connect_timeout") (tenths 50) (number_box 30 200 1)
    ∷ field opts (codes "fallback_ping_interval") (tenths 300) (number_box 50 3000 10)
    ∷ []

logging_fields : Dict OptionValue → List FormField
unfolding field
logging_fields opts =
    field opts (codes "log_level") (text_option (codes "INFO")) (drop_down log_levels)
    ∷ field opts (codes "advanced_logging") (flag false) boolean
    ∷ field opts (codes "log_version_prefix") (flag true) boolean
    ∷ field opts (codes "source_timezone") (text_option (codes "Europe/Berlin")) text_line
    ∷ []

advanced_fields : Dict OptionValue → List FormField
unfolding field
advanced_fields opts =
    field opts (codes "polling_preemption_timeout") (tenths 50) (number_box 10 200 10)
    ∷ field opts (codes "recently_set_poll_ignore_window_s") (tenths 100) (number_box 50 300 10)
    ∷ field opts (codes "log_level_threshold_for_connection_errors") (tenths 50)
        (number_box 10 600 10)
    ∷ field opts (codes "error_threshold") (tenths 30) (number_box 10 200 10)
    ∷ field opts (codes "log_level_threshold_for_preemption_errors") (tenths 30)
        (number_box 10 100 10)
    ∷ []

polling_field : Dict OptionValue → Text × ℕ → FormField
unfolding field
polling_field opts (group, default_interval) =
    field opts (codes "scan_interval_" ++ group) (tenths (10 * default_interval))
      (number_box 150 864_300 10)

-- `_build_options_schema`: the sections in their order
pub build_options_schema : Dict OptionValue → Dict (List FormField)
unfolding components_fields puffer_fields polling_field connection_fields logging_fields
    advanced_fields
build_options_schema opts =
    (codes "components", components_fields opts)
    ∷ (codes "puffer", puffer_fields opts)
    ∷ (codes "polling", map (polling_field opts) polling_group_definitions)
    ∷ (codes "connection", connection_fields opts)
    ∷ (codes "logging", logging_fields opts)
    ∷ (codes "advanced", advanced_fields opts)
    ∷ []

-- _POLLING_KEYS
abbrev polling_keys : List Text
polling_keys = map (λ group. codes "scan_interval_" ++ group.0) polling_group_definitions

-- _SECTION_KEYS
pub section_keys : Dict (List Text)
section_keys =
    (codes "polling", polling_keys)
    ∷ (
      codes "connection",
      codes "api_timeout" ∷ codes "connect_timeout" ∷ codes "fallback_ping_interval" ∷ [],
    )
    ∷ (
      codes "logging",
      codes "log_level"
          ∷ codes "advanced_logging"
          ∷ codes "log_version_prefix"
          ∷ codes "source_timezone"
          ∷ [],
    )
    ∷ (
      codes "advanced",
      codes "polling_preemption_timeout"
          ∷ codes "recently_set_poll_ignore_window_s"
          ∷ codes "log_level_threshold_for_connection_errors"
          ∷ codes "error_threshold"
          ∷ codes "log_level_threshold_for_preemption_errors"
          ∷ [],
    )
    ∷ (
      codes "components",
      codes "enable_ww1"
          ∷ codes "enable_ww2"
          ∷ codes "enable_hk2"
          ∷ codes "enable_hk3"
          ∷ codes "enable_hk4"
          ∷ codes "enable_hk5"
          ∷ codes "enable_hk6"
          ∷ codes "enable_solar"
          ∷ codes "enable_puffer_2"
          ∷ codes "enable_ext_wq"
          ∷ codes "enable_lager"
          ∷ codes "enable_netzpumpe_1"
          ∷ codes "enable_netzpumpe_2"
          ∷ codes "enable_netzpumpe_3"
          ∷ [],
    )
    ∷ (codes "puffer", codes "puffer_mitte_oben_node_id" ∷ codes "puffer_mitte_unten_node_id" ∷ [])
    ∷ []

-- `_flatten_section_data`, key by key: a key of the puffer section that is missing is None
put_answer : Bool → Text → Option OptionValue → Dict OptionValue → Dict OptionValue
put_answer is_puffer key (some v) result = insert key v result
put_answer true key none result = insert key no_value result
put_answer false key none result = result

flatten_keys : Bool → List Text → Dict OptionValue → Dict OptionValue → Dict OptionValue
unfolding put_answer lookup
flatten_keys is_puffer [] section_data result = result
flatten_keys is_puffer (key ∷ keys) section_data result =
    flatten_keys is_puffer keys section_data
      (put_answer is_puffer key (lookup key section_data) result)

flatten_section : Bool → List Text → Option (Dict OptionValue) → Dict OptionValue → Dict OptionValue
unfolding flatten_keys
flatten_section is_puffer keys none result = result
flatten_section is_puffer keys (some section_data) result =
    flatten_keys is_puffer keys section_data result

flatten_sections : Dict (List Text) → Dict (Dict OptionValue) → Dict OptionValue → Dict OptionValue
unfolding flatten_section lookup text_eq
flatten_sections [] user_input result = result
flatten_sections ((name, keys) ∷ sections) user_input result =
    flatten_sections sections user_input
      (flatten_section (text_eq name (codes "puffer")) keys (lookup name user_input) result)

pub flatten_section_data : Dict (Dict OptionValue) → Dict OptionValue
unfolding flatten_sections section_keys
flatten_section_data user_input = flatten_sections section_keys user_input []

-- `not value or not str(value).strip()`
is_blank_text : Text → Bool
is_blank_text [] = true
is_blank_text (c ∷ s) = false

is_blank : Option OptionValue → Bool
unfolding is_blank_text strip
is_blank none = true
is_blank (some no_value) = true
is_blank (some (text_option s)) = is_blank_text (strip s)
is_blank (some (flag b)) = not b
is_blank (some (tenths n)) = elim n [ zero ↦ true | suc m ↦ false ]

abbrev puffer_mitte_oben_node_id : Text
puffer_mitte_oben_node_id = codes "puffer_mitte_oben_node_id"

abbrev puffer_mitte_unten_node_id : Text
puffer_mitte_unten_node_id = codes "puffer_mitte_unten_node_id"

-- `val is None or not str(val).strip()`
is_empty_text : Option OptionValue → Bool
unfolding is_blank_text strip
is_empty_text none = true
is_empty_text (some no_value) = true
is_empty_text (some (text_option s)) = is_blank_text (strip s)
is_empty_text (some (flag b)) = false
is_empty_text (some (tenths n)) = false

-- the value in place of an option that the test finds blank
replace_if : Bool → OptionValue → Text → Dict OptionValue → Dict OptionValue
replace_if b v key options = if b then insert key v options else options

clear_puffer : Dict OptionValue → Dict OptionValue
unfolding replace_if is_blank lookup
clear_puffer options =
    let one =
      replace_if (is_blank (lookup puffer_mitte_oben_node_id options)) no_value
        puffer_mitte_oben_node_id options in
    replace_if (is_blank (lookup puffer_mitte_unten_node_id one)) no_value
      puffer_mitte_unten_node_id one

-- `async_step_init` with answers: the options that it hands to `_async_finish_flow`
process_answers : Dict (Dict OptionValue) → Dict OptionValue
unfolding clear_puffer flatten_section_data
process_answers user_input = clear_puffer (flatten_section_data user_input)

-- `a | b`
update_with : Dict OptionValue → Dict OptionValue → Dict OptionValue
update_with a [] = a
update_with a ((key, v) ∷ b) = update_with (insert key v a) b

-- `_async_finish_flow` of the options flow, which starts with no data: the new options
finish_options_flow : Dict OptionValue → Dict OptionValue → Dict OptionValue
unfolding clear_puffer update_with
finish_options_flow current options = clear_puffer (update_with current options)

-- `_get_current_options` of the options flow
unfoldable get_current_options : Dict OptionValue → Dict OptionValue
unfolding replace_if is_empty_text lookup
get_current_options options =
    let one =
      replace_if (is_empty_text (lookup puffer_mitte_oben_node_id options)) (text_option [])
        puffer_mitte_oben_node_id options in
    replace_if (is_empty_text (lookup puffer_mitte_unten_node_id one)) (text_option [])
      puffer_mitte_unten_node_id one

-- `async_step_init` of the options flow with answers
unfoldable submit_options : Dict OptionValue → Dict (Dict OptionValue) → Dict OptionValue
unfolding finish_options_flow process_answers
submit_options current user_input = finish_options_flow current (process_answers user_input)
