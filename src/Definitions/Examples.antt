-- ===== src/Definitions/Examples.antt =====
-- The catalogue with a middle buffer sensor: custom_components/hdg_boiler/definitions.py
use hdg_bavaria_homeassistan.Prelude.{◌≡◌, Text, codes, true, [], ◌∷◌}
use hdg_bavaria_homeassistan.Prelude.Dict.{Dict, all_items}
use hdg_bavaria_homeassistan.Definitions.{get_sensor_definitions}
use hdg_bavaria_homeassistan.Definitions.Catalogue.{is_sound, catalogue_is_sound}

abbrev middle_buffer : Dict Text
middle_buffer = (codes "puffer_mitte_oben_node_id", codes "24030") ∷ []

catalogue_is_sound_example : all_items is_sound (get_sensor_definitions middle_buffer) ≡ true
catalogue_is_sound_example = catalogue_is_sound middle_buffer
