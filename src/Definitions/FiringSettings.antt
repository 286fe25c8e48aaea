-- ===== src/Definitions/FiringSettings.antt =====
-- Rows of SENSOR_DEFINITIONS in custom_components/hdg_boiler/definitions.py: ignition, firing and the first buffer.
use hdg_bavaria_homeassistan.Prelude.{codes, true, none, some, [], ◌∷◌}
use hdg_bavaria_homeassistan.Models.{
  SensorDefinition, diagnostic, measurement, minutes, seconds, total_increasing,
}
use hdg_bavaria_homeassistan.Definitions.Base.{Items, polling_group_3, polling_group_4}
use hdg_bavaria_homeassistan.Definitions.Factories.{
  create_diagnostic_text_sensor, create_enum_sensor, create_temp_sensor,
}
use hdg_bavaria_homeassistan.Definitions.Measures.{
  create_duration_sensor, create_kelvin_sensor, create_percentage_sensor,
}

unfoldable pub firing_settings : Items SensorDefinition
unfolding create_diagnostic_text_sensor create_duration_sensor create_enum_sensor
    create_kelvin_sensor create_percentage_sensor create_temp_sensor
firing_settings =
    (
      codes "frostschutz_rlt_groesser",
      create_temp_sensor (codes "frostschutz_rlt_groesser") (codes "2117T") polling_group_3
          (codes "mdi:snowflake-check") none true,
    )
    ∷ (
      codes "offset_kesseltemperatur_soll_maximum",
      create_kelvin_sensor (codes "offset_kesseltemperatur_soll_maximum") (codes "2123T")
          polling_group_3 (codes "mdi:thermometer-plus") none true,
    )
    ∷ (
      codes "anzunden_zeitdauer",
      create_duration_sensor (codes "anzunden_zeitdauer") (codes "2302T") polling_group_3
          (codes "mdi:timer-fire") (codes "iMIN") minutes (some measurement) none true,
    )
    ∷ (
      codes "anzunden_primarluft",
      create_percentage_sensor (codes "anzunden_primarluft") (codes "2303T") polling_group_3
          (codes "mdi:weather-windy") (some measurement) none none true,
    )
    ∷ (
      codes "anzunden_sekundarluft",
      create_percentage_sensor (codes "anzunden_sekundarluft") (codes "2304T") polling_group_3
          (codes "mdi:weather-windy-variant") (some measurement) none none true,
    )
    ∷ (
      codes "anheizen_zeitdauer",
      create_duration_sensor (codes "anheizen_zeitdauer") (codes "2306T") polling_group_3
          (codes "mdi:fire-clock") (codes "iMIN") minutes (some measurement) none true,
    )
    ∷ (
      codes "auto_zundung_einschaltverzogerung",
      create_duration_sensor (codes "auto_zundung_einschaltverzogerung") (codes "2320T")
          polling_group_3 (codes "mdi:timer-cog-outline") (codes "iMIN") minutes (some measurement)
          none true,
    )
    ∷ (
      codes "ausbrennen_primarluft",
      create_percentage_sensor (codes "ausbrennen_primarluft") (codes "2402T") polling_group_3
          (codes "mdi:air-filter") (some measurement) none none true,
    )
    ∷ (
      codes "ausbrennen_sekundarluft",
      create_percentage_sensor (codes "ausbrennen_sekundarluft") (codes "2403T") polling_group_3
          (codes "mdi:air-filter") (some measurement) none none true,
    )
    ∷ (
      codes "ausbrennen_bezugsgrosse",
      create_enum_sensor (codes "ausbrennen_bezugsgrosse") (codes "2407T") polling_group_3
          (codes "mdi:axis-arrow") none none true,
    )
    ∷ (
      codes "festwertvorgabe_primarluft",
      create_percentage_sensor (codes "festwertvorgabe_primarluft") (codes "2603T") polling_group_3
          (codes "mdi:tune-variant") (some measurement) none none true,
    )
    ∷ (
      codes "festwertvorgabe_sekundarluft",
      create_percentage_sensor (codes "festwertvorgabe_sekundarluft") (codes "2604T")
          polling_group_3 (codes "mdi:tune-variant") (some measurement) none none true,
    )
    ∷ (
      codes "pid3_o2_sekundarluft_minimum",
      create_percentage_sensor (codes "pid3_o2_sekundarluft_minimum") (codes "2623T")
          polling_group_4 (codes "mdi:arrow-collapse-down") (some measurement) none none true,
    )
    ∷ (
      codes "pid3_o2_sekundarluft_maximum",
      create_percentage_sensor (codes "pid3_o2_sekundarluft_maximum") (codes "2624T")
          polling_group_4 (codes "mdi:arrow-collapse-up") (some measurement) none none true,
    )
    ∷ (
      codes "rucklaufmischer_laufzeit_gesamt",
      create_duration_sensor (codes "rucklaufmischer_laufzeit_gesamt") (codes "2805T")
          polling_group_4 (codes "mdi:timer-sync-outline") (codes "iSEK") seconds
          (some total_increasing) (some diagnostic) true,
    )
    ∷ (
      codes "pid_sollwert_rucklauf_spreizung_minimum",
      create_kelvin_sensor (codes "pid_sollwert_rucklauf_spreizung_minimum") (codes "2813T")
          polling_group_4 (codes "mdi:thermometer-minus") none true,
    )
    ∷ (
      codes "restwarmenutzung_puffer_bezug",
      create_enum_sensor (codes "restwarmenutzung_puffer_bezug") (codes "2816T") polling_group_4
          (codes "mdi:heat-wave") none none true,
    )
    ∷ (
      codes "freigabe_kesseltemperatur",
      create_temp_sensor (codes "freigabe_kesseltemperatur") (codes "2901T") polling_group_4
          (codes "mdi:thermometer-check") none true,
    )
    ∷ (
      codes "freigabe_abgastemperatur",
      create_temp_sensor (codes "freigabe_abgastemperatur") (codes "2904T") polling_group_4
          (codes "mdi:thermometer-high") none true,
    )
    ∷ (
      codes "puffer_1_bezeichnung",
      create_diagnostic_text_sensor (codes "puffer_1_bezeichnung") (codes "4020T") polling_group_4
          (codes "mdi:information-outline") (codes "text") true,
    )
    ∷ (
      codes "puffer_1_ladung_abbruch_temperatur_oben",
      create_temp_sensor (codes "puffer_1_ladung_abbruch_temperatur_oben") (codes "4033T")
          polling_group_4 (codes "mdi:thermometer-off") none true,
    )
    ∷ (
      codes "puffer_1_fuhler_quelle",
      create_enum_sensor (codes "puffer_1_fuhler_quelle") (codes "4036T") polling_group_4
          (codes "mdi:thermometer-lines") none none true,
    )
    ∷ (
      codes "puffer_1_energieberechnung_aktivieren",
      create_enum_sensor (codes "puffer_1_energieberechnung_aktivieren") (codes "4060T")
          polling_group_4 (codes "mdi:calculator-variant-outline") none none true,
    )
    ∷ []
