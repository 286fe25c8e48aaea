-- ===== src/Definitions/BoilerReadings.antt =====
-- Rows of SENSOR_DEFINITIONS in custom_components/hdg_boiler/definitions.py: the boiler.
use hdg_bavaria_homeassistan.Prelude.{codes, true, none, some, [], ◌∷◌}
use hdg_bavaria_homeassistan.Models.{
  SensorDefinition, diagnostic, hours, measurement, total_increasing,
}
use hdg_bavaria_homeassistan.Definitions.Base.{Items, polling_group_1, polling_group_5}
use hdg_bavaria_homeassistan.Definitions.Factories.{
  create_diagnostic_text_sensor, create_enum_sensor, create_temp_sensor, create_version_sensor,
}
use hdg_bavaria_homeassistan.Definitions.Measures.{create_duration_sensor, create_percentage_sensor}

unfoldable pub boiler_readings : Items SensorDefinition
unfolding create_diagnostic_text_sensor create_duration_sensor create_enum_sensor
    create_percentage_sensor create_temp_sensor create_version_sensor
boiler_readings =
    (
      codes "aussentemperatur",
      create_temp_sensor (codes "aussentemperatur") (codes "20000T") polling_group_1
          (codes "mdi:thermometer") none true,
    )
    ∷ (
      codes "software_version_touch",
      create_version_sensor (codes "software_version_touch") (codes "20003T") polling_group_5
          (codes "mdi:chip") true,
    )
    ∷ (
      codes "anlagenbezeichnung_sn",
      create_diagnostic_text_sensor (codes "anlagenbezeichnung_sn") (codes "20026T") polling_group_5
          (codes "mdi:tag") (codes "text") true,
    )
    ∷ (
      codes "mac_adresse",
      create_diagnostic_text_sensor (codes "mac_adresse") (codes "20031T") polling_group_5
          (codes "mdi:network-outline") (codes "text") true,
    )
    ∷ (
      codes "anlage_betriebsart",
      create_enum_sensor (codes "anlage_betriebsart") (codes "20032T") polling_group_5
          (codes "mdi:home-automation") (some diagnostic) none true,
    )
    ∷ (
      codes "anlage_status_text",
      create_enum_sensor (codes "anlage_status_text") (codes "20033T") polling_group_5
          (codes "mdi:power-settings") (some diagnostic) none true,
    )
    ∷ (
      codes "software_version_fa",
      create_version_sensor (codes "software_version_fa") (codes "20036T") polling_group_5
          (codes "mdi:chip") true,
    )
    ∷ (
      codes "extra_version_info",
      create_diagnostic_text_sensor (codes "extra_version_info") (codes "20037T") polling_group_5
          (codes "mdi:information-outline") (codes "allow_empty_string") true,
    )
    ∷ (
      codes "hydraulikschema_nummer",
      create_diagnostic_text_sensor (codes "hydraulikschema_nummer") (codes "20039T")
          polling_group_5 (codes "mdi:hydraulic-oil-level") (codes "text") true,
    )
    ∷ (
      codes "brennraumtemperatur",
      create_temp_sensor (codes "brennraumtemperatur") (codes "22000T") polling_group_1
          (codes "mdi:thermometer-lines") none true,
    )
    ∷ (
      codes "brennraumtemperatur_soll",
      create_temp_sensor (codes "brennraumtemperatur_soll") (codes "2605T") polling_group_1
          (codes "mdi:thermometer-lines") none true,
    )
    ∷ (
      codes "kessel_abgastemperatur_ist",
      create_temp_sensor (codes "kessel_abgastemperatur_ist") (codes "22001T") polling_group_1
          (codes "mdi:thermometer-high") none true,
    )
    ∷ (
      codes "kessel_restsauerstoff_ist",
      create_percentage_sensor (codes "kessel_restsauerstoff_ist") (codes "22002T") polling_group_1
          (codes "mdi:molecule-co2") (some measurement) none none true,
    )
    ∷ (
      codes "kesseltemperatur_ist",
      create_temp_sensor (codes "kesseltemperatur_ist") (codes "22003T") polling_group_1
          (codes "mdi:thermometer") none true,
    )
    ∷ (
      codes "kessel_rucklauftemperatur_ist",
      create_temp_sensor (codes "kessel_rucklauftemperatur_ist") (codes "22004T") polling_group_1
          (codes "mdi:thermometer-water") none true,
    )
    ∷ (
      codes "materialmenge_aktuell",
      create_percentage_sensor (codes "materialmenge_aktuell") (codes "22005T") polling_group_1
          (codes "mdi:gauge") (some measurement) none none true,
    )
    ∷ (
      codes "primarluftklappe_ist",
      create_percentage_sensor (codes "primarluftklappe_ist") (codes "22008T") polling_group_1
          (codes "mdi:valve") (some measurement) none none true,
    )
    ∷ (
      codes "sekundarluftklappe_ist",
      create_percentage_sensor (codes "sekundarluftklappe_ist") (codes "22009T") polling_group_1
          (codes "mdi:valve") (some measurement) none none true,
    )
    ∷ (
      codes "kessel_status",
      create_enum_sensor (codes "kessel_status") (codes "22010T") polling_group_1 (codes "mdi:fire")
          (some diagnostic) none true,
    )
    ∷ (
      codes "kessel_betriebsstunden",
      create_duration_sensor (codes "kessel_betriebsstunden") (codes "22011T") polling_group_5
          (codes "mdi:timer-outline") (codes "iSTD") hours (some total_increasing) (some diagnostic)
          true,
    )
    ∷ (
      codes "laufzeit_wt_reinigung",
      create_duration_sensor (codes "laufzeit_wt_reinigung") (codes "22012T") polling_group_5
          (codes "mdi:broom") (codes "iSTD") hours (some total_increasing) (some diagnostic) true,
    )
    ∷ (
      codes "laufzeit_entaschung",
      create_duration_sensor (codes "laufzeit_entaschung") (codes "22013T") polling_group_5
          (codes "mdi:delete-sweep-outline") (codes "iSTD") hours (some total_increasing)
          (some diagnostic) true,
    )
    ∷ []
