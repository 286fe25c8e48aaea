-- ===== src/Options/Form.antt =====
-- The form of custom_components/hdg_boiler/config_flow.py and its keys.
use hdg_bavaria_homeassistan.Prelude.{
  ◌≡◌, refl, Text, Bool, true, false, ◌&&◌, Option, none, some, List, [], ◌∷◌, ◌++◌, map, leb,
  text_eq, all, any,
}
use hdg_bavaria_homeassistan.Prelude.Dict.{Dict, lookup, insert, all_items}
use hdg_bavaria_homeassistan.Options.{
  OptionValue, text_option, flag, tenths, Selector, number_box, boolean, text_line, drop_down,
  FormField, field, suggested_field, build_options_schema, components_fields, puffer_fields,
  polling_field, connection_fields, logging_fields, advanced_fields, section_keys,
  flatten_section_data, flatten_sections, flatten_section, flatten_keys, put_answer,
}

-- The answers to a form that is sent as it is shown.
abbrev as_shown : List FormField → Dict OptionValue
as_shown = map λ f. (f.key, f.shown)

abbrev answers_as_shown : Dict (List FormField) → Dict (Dict OptionValue)
answers_as_shown = map λ section. (section.0, as_shown section.1)

-- The answers of the sections, in this order.
abbrev answers_of : Option (Dict OptionValue) → Dict OptionValue
answers_of none = []
answers_of (some answers) = answers

abbrev in_order : Dict (List Text) → Dict (Dict OptionValue) → Dict OptionValue
in_order [] answers = []
in_order ((name, keys) ∷ sections) answers =
    answers_of (lookup name answers) ++ in_order sections answers

abbrev all_keys : Dict (List Text) → List Text
all_keys [] = []
all_keys ((name, keys) ∷ sections) = keys ++ all_keys sections

-- A value that the selector of a field offers.
abbrev is_offered : Selector → OptionValue → Bool
is_offered (number_box minimum maximum step) (tenths n) = leb minimum n && leb n maximum
is_offered boolean (flag b) = true
is_offered text_line (text_option s) = true
is_offered (drop_down options) (text_option s) = any (λ o. text_eq o s) options
is_offered (number_box minimum maximum step) _ = false
is_offered boolean _ = false
is_offered text_line _ = false
is_offered (drop_down options) _ = false

-- The statement about the form for the current options.
abbrev pub IsSoundForm : Dict OptionValue → Type 0
IsSoundForm opts =
    (flatten_section_data (answers_as_shown (build_options_schema opts))
      ≡ in_order section_keys (answers_as_shown (build_options_schema opts)))
    × (map (λ item. item.0) (in_order section_keys (answers_as_shown (build_options_schema opts)))
        ≡ all_keys section_keys)
    × (all_items (λ name fields. all (λ f. is_offered f.selector f.fallback) fields)
          (build_options_schema opts)
        ≡ true)

-- Whatever the current options: if the form is sent back as it is shown, the flattened answers
-- are the answers of all sections in the order of the section keys; every field is under a key of
-- its section and every such key has a field; and the fallback of each field is a value that its
-- selector offers.
pub options_form_is_sound : (opts : Dict OptionValue) → IsSoundForm opts
unfolding flatten_section_data flatten_sections flatten_section flatten_keys put_answer section_keys
    build_options_schema components_fields puffer_fields polling_field connection_fields
    logging_fields advanced_fields field suggested_field lookup insert text_eq all_items
options_form_is_sound opts = (refl, refl, refl)
