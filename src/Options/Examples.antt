-- ===== src/Options/Examples.antt =====
-- A form for options that are not the default:
-- custom_components/hdg_boiler/config_flow.py
use hdg_bavaria_homeassistan.Prelude.{codes, true, [], ◌∷◌}
use hdg_bavaria_homeassistan.Prelude.Dict.{Dict}
use hdg_bavaria_homeassistan.Options.{OptionValue, flag, tenths}
use hdg_bavaria_homeassistan.Options.Form.{IsSoundForm, options_form_is_sound}

abbrev current : Dict OptionValue
current = (codes "enable_hk2", flag true) ∷ (codes "api_timeout", tenths 200) ∷ []

options_form_is_sound_example : IsSoundForm current
options_form_is_sound_example = options_form_is_sound current
