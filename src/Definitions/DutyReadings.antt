-- ===== src/Definitions/DutyReadings.antt =====
-- Rows of SENSOR_DEFINITIONS in custom_components/hdg_boiler/definitions.py: overheating, reserve and air.
use hdg_bavaria_homeassistan.Prelude.{codes, true, none, some, [], ◌∷◌}
use hdg_bavaria_homeassistan.Models.{
  SensorDefinition, DeviceClass, diagnostic, hours, kilo_watt_hour, measurement, mega_watt_hour,
  minutes, total_increasing,
}
use hdg_bavaria_homeassistan.Definitions.Base.{Items, polling_group_1, polling_group_5}
use hdg_bavaria_homeassistan.Definitions.Factories.{
  create_diagnostic_enum_sensor, create_diagnostic_text_sensor, create_enum_sensor,
  create_general_sensor,
}
use hdg_bavaria_homeassistan.Definitions.Measures.{
  create_duration_sensor, create_energy_sensor, create_kelvin_sensor, create_percentage_sensor,
}

unfoldable pub duty_readings : Items SensorDefinition
unfolding create_diagnostic_enum_sensor create_diagnostic_text_sensor create_duration_sensor
    create_energy_sensor create_enum_sensor create_general_sensor create_kelvin_sensor
    create_percentage_sensor
duty_readings =
    (
      codes "restlaufzeit_schornsteinfeger",
      create_duration_sensor (codes "restlaufzeit_schornsteinfeger") (codes "22040T")
          polling_group_5 (codes "mdi:account-hard-hat-outline") (codes "iMIN") minutes
          (some measurement) (some diagnostic) true,
    )
    ∷ (
      codes "kessel_typ_info_leer",
      create_diagnostic_text_sensor (codes "kessel_typ_info_leer") (codes "22041T") polling_group_5
          (codes "mdi:information-off-outline") (codes "allow_empty_string") true,
    )
    ∷ (
      codes "kessel_rucklaufmischer",
      create_percentage_sensor (codes "kessel_rucklaufmischer") (codes "22043T") polling_group_1
          (codes "mdi:valve-open") (some measurement) none none true,
    )
    ∷ (
      codes "abgasleitwert_ist",
      create_kelvin_sensor (codes "abgasleitwert_ist") (codes "22044T") polling_group_1
          (codes "mdi:delta") none true,
    )
    ∷ (
      codes "kessel_restsauerstoff_korr",
      create_percentage_sensor (codes "kessel_restsauerstoff_korr") (codes "22045T") polling_group_1
          (codes "mdi:molecule-co2") (some measurement) none none true,
    )
    ∷ (
      codes "primarluft_korrektur_o2",
      create_enum_sensor (codes "primarluft_korrektur_o2") (codes "22046T") polling_group_5
          (codes "mdi:air-filter") none none true,
    )
    ∷ (
      codes "abgasleitwert_soll",
      create_kelvin_sensor (codes "abgasleitwert_soll") (codes "22049T") polling_group_1
          (codes "mdi:delta") none true,
    )
    ∷ (
      codes "kessel_o2_sollwert",
      create_percentage_sensor (codes "kessel_o2_sollwert") (codes "22050T") polling_group_1
          (codes "mdi:target-variant") (some measurement) none none true,
    )
    ∷ (
      codes "kessel_nachlegemenge",
      create_percentage_sensor (codes "kessel_nachlegemenge") (codes "22052T") polling_group_1
          (codes "mdi:basket-fill") (some measurement) none none true,
    )
    ∷ (
      codes "kessel_nachlegezeitpunkt_2",
      create_general_sensor (codes "kessel_nachlegezeitpunkt_2") (codes "22053T") polling_group_5
          (codes "2") (codes "hdg_datetime_or_text") (codes "mdi:clock-alert-outline")
          (some (codes "iRSINLM")) (some DeviceClass.timestamp) none none (some diagnostic) true,
    )
    ∷ (
      codes "kessel_energieverbrauch_tag_gesamt",
      create_energy_sensor (codes "kessel_energieverbrauch_tag_gesamt") (codes "22054T")
          polling_group_5 (codes "mdi:lightning-bolt") (codes "iKWH") kilo_watt_hour
          (some total_increasing) (some diagnostic) (some DeviceClass.energy) true,
    )
    ∷ (
      codes "kessel_nachlegebedarf",
      create_percentage_sensor (codes "kessel_nachlegebedarf") (codes "22057T") polling_group_1
          (codes "mdi:basket-unfill") (some measurement) none none true,
    )
    ∷ (
      codes "kessel_nachlegen_anzeige_text",
      create_diagnostic_enum_sensor (codes "kessel_nachlegen_anzeige_text") (codes "22062T")
          polling_group_5 (codes "mdi:basket-alert-outline") true,
    )
    ∷ (
      codes "zeit_kesseluberhitzung_10_abbrande_std",
      create_duration_sensor (codes "zeit_kesseluberhitzung_10_abbrande_std") (codes "22064T")
          polling_group_5 (codes "mdi:timer-alert-outline") (codes "iSTD") hours
          (some total_increasing) (some diagnostic) true,
    )
    ∷ (
      codes "zeit_kesseluberhitzung_10_abbrande_prozent",
      create_percentage_sensor (codes "zeit_kesseluberhitzung_10_abbrande_prozent") (codes "22065T")
          polling_group_5 (codes "mdi:alert-circle-check-outline") (some measurement)
          (some diagnostic) none true,
    )
    ∷ (
      codes "zeit_kesseluberhitzung_gesamt_std",
      create_duration_sensor (codes "zeit_kesseluberhitzung_gesamt_std") (codes "22066T")
          polling_group_5 (codes "mdi:timer-alert") (codes "iSTD") hours (some total_increasing)
          (some diagnostic) true,
    )
    ∷ (
      codes "zeit_kesseluberhitzung_gesamt_prozent",
      create_percentage_sensor (codes "zeit_kesseluberhitzung_gesamt_prozent") (codes "22067T")
          polling_group_5 (codes "mdi:alert-circle-check") (some measurement) (some diagnostic) none
          true,
    )
    ∷ (
      codes "stillstandszeit_soll",
      create_duration_sensor (codes "stillstandszeit_soll") (codes "22068T") polling_group_1
          (codes "mdi:timer-sand") (codes "iSTD") hours (some measurement) none true,
    )
    ∷ (
      codes "kessel_warmemenge_gesamt",
      create_energy_sensor (codes "kessel_warmemenge_gesamt") (codes "22069T") polling_group_5
          (codes "mdi:lightning-bolt-circle") (codes "iMWH") mega_watt_hour (some total_increasing)
          (some diagnostic) (some DeviceClass.energy) true,
    )
    ∷ []
