-- ===== src/Platforms/Examples.antt =====
-- The mode of an external heat source becomes an entity:
-- custom_components/hdg_boiler/helpers/entity_utils.py
use hdg_bavaria_homeassistan.Prelude.{
  ◌≡◌, ℕ, refl, codes, false, true, some, none, [], List, length, text_eq,
}
use hdg_bavaria_homeassistan.Prelude.Dict.{Dict, lookup, insert}
use hdg_bavaria_homeassistan.Models.{SensorDefinition}
use hdg_bavaria_homeassistan.Definitions.{get_sensor_definitions}
use hdg_bavaria_homeassistan.Definitions.Base.{
  polling_group_2, ext_wq_operating_mode_options, with_group,
}
use hdg_bavaria_homeassistan.Definitions.Factories.{create_select_entity}
use hdg_bavaria_homeassistan.Platforms.{Entity, set_up_platforms, total_added_entities}
use hdg_bavaria_homeassistan.Platforms.Added.{adds, every_definition_is_added}

abbrev mode_definition : SensorDefinition
mode_definition =
    with_group
      (create_select_entity (codes "externe_warmequelle_betriebsart") (codes "25001T")
        polling_group_2 (codes "mdi:fire") ext_wq_operating_mode_options none (some true) false)
      (codes "ext_wq")

mode_definition-found :
    lookup (codes "externe_warmequelle_betriebsart") (get_sensor_definitions [])
    ≡ some mode_definition
unfolding lookup text_eq get_sensor_definitions insert
mode_definition-found = refl

every_definition_is_added_example :
    (es : List Entity) × (counts : Dict ℕ) × (set_up_platforms (get_sensor_definitions [])
      ≡ some (es, counts))
    × (total_added_entities counts ≡ length (get_sensor_definitions []))
    × (adds (codes "externe_warmequelle_betriebsart") es ≡ true)
every_definition_is_added_example =
    every_definition_is_added [] (codes "externe_warmequelle_betriebsart") mode_definition
      mode_definition-found
