-- ===== src/Definitions/SystemSettings.antt =====
-- Rows of SENSOR_DEFINITIONS in custom_components/hdg_boiler/definitions.py: the system.
use hdg_bavaria_homeassistan.Prelude.{codes, true, none, some, [], ◌∷◌}
use hdg_bavaria_homeassistan.Models.{
  SensorDefinition, DeviceClass, diagnostic, kilo_watt, kilograms, measurement,
}
use hdg_bavaria_homeassistan.Definitions.Base.{Items, polling_group_3}
use hdg_bavaria_homeassistan.Definitions.Factories.{
  create_enum_sensor, create_general_sensor, create_temp_sensor, create_text_sensor,
}
use hdg_bavaria_homeassistan.Definitions.Measures.{create_mass_sensor, create_percentage_sensor}

unfoldable pub system_settings : Items SensorDefinition
unfolding create_enum_sensor create_general_sensor create_mass_sensor create_percentage_sensor
    create_temp_sensor create_text_sensor
system_settings =
    (
      codes "sprache",
      create_enum_sensor (codes "sprache") (codes "1T") polling_group_3 (codes "mdi:translate") none
          none true,
    )
    ∷ (
      codes "bauart",
      create_enum_sensor (codes "bauart") (codes "2T") polling_group_3 (codes "mdi:tools")
          (some diagnostic) none true,
    )
    ∷ (
      codes "kesseltyp_kennung",
      create_enum_sensor (codes "kesseltyp_kennung") (codes "3T") polling_group_3
          (codes "mdi:tag-text-outline") (some diagnostic) none true,
    )
    ∷ (
      codes "stromnetz",
      create_enum_sensor (codes "stromnetz") (codes "4T") polling_group_3
          (codes "mdi:power-plug-outline") none none true,
    )
    ∷ (
      codes "brennstoff",
      create_enum_sensor (codes "brennstoff") (codes "6T") polling_group_3
          (codes "mdi:pine-tree-fire") none none true,
    )
    ∷ (
      codes "automatische_zeitumstellung",
      create_enum_sensor (codes "automatische_zeitumstellung") (codes "9T") polling_group_3
          (codes "mdi:clock-time-eleven-outline") none none true,
    )
    ∷ (
      codes "einstiegsbild",
      create_enum_sensor (codes "einstiegsbild") (codes "11T") polling_group_3
          (codes "mdi:television-guide") none none true,
    )
    ∷ (
      codes "holzart",
      create_enum_sensor (codes "holzart") (codes "13T") polling_group_3 (codes "mdi:tree-outline")
          none none true,
    )
    ∷ (
      codes "holzfeuchte",
      create_enum_sensor (codes "holzfeuchte") (codes "14T") polling_group_3
          (codes "mdi:water-percent") none none true,
    )
    ∷ (
      codes "automatische_zundung_aktivieren",
      create_enum_sensor (codes "automatische_zundung_aktivieren") (codes "15T") polling_group_3
          (codes "mdi:auto-fix") none none true,
    )
    ∷ (
      codes "auto_zundung_webcontrol_erlauben",
      create_enum_sensor (codes "auto_zundung_webcontrol_erlauben") (codes "16T") polling_group_3
          (codes "mdi:web-check") (some diagnostic) none true,
    )
    ∷ (
      codes "objektwarmebedarf",
      create_general_sensor (codes "objektwarmebedarf") (codes "17T") polling_group_3 (codes "2")
          (codes "float") (codes "mdi:radiator") (some (codes "iKW")) (some DeviceClass.power)
          (some kilo_watt) (some measurement) none true,
    )
    ∷ (
      codes "minimale_nachlegemenge",
      create_percentage_sensor (codes "minimale_nachlegemenge") (codes "18T") polling_group_3
          (codes "mdi:basket-minus-outline") (some measurement) (some diagnostic) none true,
    )
    ∷ (
      codes "nachlegeschritt_text",
      create_text_sensor (codes "nachlegeschritt_text") (codes "19T") polling_group_3
          (codes "mdi:stairs-up") (codes "text") none none true,
    )
    ∷ (
      codes "nachlegeschritt",
      create_percentage_sensor (codes "nachlegeschritt") (codes "19T") polling_group_3
          (codes "mdi:stairs") (some measurement) none none true,
    )
    ∷ (
      codes "nachlege_benachrichtigung",
      create_enum_sensor (codes "nachlege_benachrichtigung") (codes "20T") polling_group_3
          (codes "mdi:basket-clock") none none true,
    )
    ∷ (
      codes "offset_aussenfuhler",
      create_temp_sensor (codes "offset_aussenfuhler") (codes "36T") polling_group_3
          (codes "mdi:thermometer-offset") (some diagnostic) true,
    )
    ∷ (
      codes "lagerinhalt_aktuell",
      create_mass_sensor (codes "lagerinhalt_aktuell") (codes "21006T") polling_group_3
          (codes "mdi:silo") (codes "iKG") kilograms (some measurement) (some diagnostic) true,
    )
    ∷ (
      codes "kesseltemperatur_sollwert_param",
      create_temp_sensor (codes "kesseltemperatur_sollwert_param") (codes "2113T") polling_group_3
          (codes "mdi:thermometer-lines") none true,
    )
    ∷ (
      codes "frostschutzprogramm_aktivieren",
      create_enum_sensor (codes "frostschutzprogramm_aktivieren") (codes "2114T") polling_group_3
          (codes "mdi:snowflake-thermometer") none none true,
    )
    ∷ (
      codes "frostschutz_zirkulation_at_kleiner",
      create_temp_sensor (codes "frostschutz_zirkulation_at_kleiner") (codes "2115T")
          polling_group_3 (codes "mdi:snowflake-alert") none true,
    )
    ∷ (
      codes "frostschutz_rlt_kleiner",
      create_temp_sensor (codes "frostschutz_rlt_kleiner") (codes "2116T") polling_group_3
          (codes "mdi:snowflake-alert") none true,
    )
    ∷ []
