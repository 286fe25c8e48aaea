-- ===== src/Definitions/HeatingCircuit.antt =====
-- `get_hk_definitions` of custom_components/hdg_boiler/definitions.py.
use hdg_bavaria_homeassistan.Prelude.{
  ◌+◌, ℕ, Text, codes, Bool, true, none, some, [], ◌∷◌, ◌++◌, ◌==◌, if◌then◌else◌,
}
use hdg_bavaria_homeassistan.Protocol.{decimal}
use hdg_bavaria_homeassistan.Models.{
  SensorDefinition, DeviceClass, celsius, diagnostic, kelvin, measurement, seconds, pos, negsuc,
}
use hdg_bavaria_homeassistan.Definitions.Base.{
  Items, hk_operating_mode_options, polling_group_1, polling_group_2, polling_group_4,
  polling_group_5, with_group,
}
use hdg_bavaria_homeassistan.Definitions.Factories.{
  create_diagnostic_enum_sensor, create_diagnostic_text_sensor, create_enum_sensor,
  create_general_sensor, create_number_entity, create_select_entity, create_temp_sensor,
}
use hdg_bavaria_homeassistan.Definitions.Measures.{create_duration_sensor, create_kelvin_sensor}

hk_settings : (p sys_key : Text) (enabled : Bool) (base_node_cfg : ℕ) → Items SensorDefinition
unfolding decimal create_diagnostic_text_sensor create_enum_sensor create_general_sensor
    create_kelvin_sensor create_number_entity create_select_entity create_temp_sensor
hk_settings p sys_key enabled base_node_cfg =
    (
      p ++ codes "betriebsart",
      create_select_entity (p ++ codes "betriebsart") (decimal (base_node_cfg + 8) ++ codes "T")
          polling_group_2 (codes "mdi:thermostat") hk_operating_mode_options none (some true)
          enabled,
    )
    ∷ (
      sys_key,
      create_enum_sensor sys_key (decimal (base_node_cfg + 20) ++ codes "T") polling_group_4
          (codes "mdi:radiator-disabled") none none enabled,
    )
    ∷ (
      p ++ codes "bezeichnung",
      create_diagnostic_text_sensor (p ++ codes "bezeichnung")
          (decimal (base_node_cfg + 21) ++ codes "T") polling_group_4 (codes "mdi:label-outline")
          (codes "text") enabled,
    )
    ∷ (
      p ++ codes "soll_normal",
      create_number_entity (p ++ codes "soll_normal") (decimal (base_node_cfg + 22) ++ codes "T")
          polling_group_4 (codes "mdi:home-thermometer") (codes "int") (pos 0) (pos 900) (pos 10)
          (some celsius) (some DeviceClass.temperature) (some (codes "iTEMP")) (some measurement)
          enabled,
    )
    ∷ (
      p ++ codes "soll_absenk",
      create_number_entity (p ++ codes "soll_absenk") (decimal (base_node_cfg + 23) ++ codes "T")
          polling_group_4 (codes "mdi:home-thermometer-outline") (codes "int") (pos 0) (pos 900)
          (pos 10) (some celsius) (some DeviceClass.temperature) (some (codes "iTEMP"))
          (some measurement) enabled,
    )
    ∷ (
      p ++ codes "parallelverschiebung",
      create_number_entity (p ++ codes "parallelverschiebung")
          (decimal (base_node_cfg + 24) ++ codes "T") polling_group_4 (codes "mdi:arrow-up-down")
          (codes "int") (negsuc 199) (pos 200) (pos 10) (some kelvin) none (some (codes "iKELV"))
          (some measurement) enabled,
    )
    ∷ (
      p ++ codes "raumeinflussfaktor",
      create_general_sensor (p ++ codes "raumeinflussfaktor")
          (decimal (base_node_cfg + 25) ++ codes "T") polling_group_4 (codes "2") (codes "float")
          (codes "mdi:home-import-outline") none none none (some measurement) none enabled,
    )
    ∷ (
      p ++ codes "steilheit",
      create_number_entity (p ++ codes "steilheit") (decimal (base_node_cfg + 26) ++ codes "T")
          polling_group_4 (codes "mdi:chart-line-variant") (codes "float1") (pos 1) (pos 35) (pos 1)
          none none none (some measurement) enabled,
    )
    ∷ (
      p ++ codes "vorlauftemperatur_minimum",
      create_temp_sensor (p ++ codes "vorlauftemperatur_minimum")
          (decimal (base_node_cfg + 27) ++ codes "T") polling_group_4
          (codes "mdi:thermometer-minus") none enabled,
    )
    ∷ (
      p ++ codes "vorlauftemperatur_maximum",
      create_temp_sensor (p ++ codes "vorlauftemperatur_maximum")
          (decimal (base_node_cfg + 28) ++ codes "T") polling_group_4 (codes "mdi:thermometer-plus")
          none enabled,
    )
    ∷ (
      p ++ codes "raumeinheit_status",
      create_enum_sensor (p ++ codes "raumeinheit_status")
          (decimal (base_node_cfg + 29) ++ codes "T") polling_group_4 (codes "mdi:remote")
          (some diagnostic) none enabled,
    )
    ∷ (
      p ++ codes "offset_raumfuhler",
      create_kelvin_sensor (p ++ codes "offset_raumfuhler")
          (decimal (base_node_cfg + 30) ++ codes "T") polling_group_4
          (codes "mdi:thermometer-offset") none enabled,
    )
    ∷ (
      p ++ codes "warmequelle",
      create_enum_sensor (p ++ codes "warmequelle") (decimal (base_node_cfg + 39) ++ codes "T")
          polling_group_4 (codes "mdi:radiator-outline") none none enabled,
    )
    ∷ []

hk_readings :
    (p : Text) (enabled : Bool) (base_node_cfg base_node_stat : ℕ) → Items SensorDefinition
unfolding decimal create_diagnostic_enum_sensor create_duration_sensor create_enum_sensor
    create_general_sensor create_number_entity create_temp_sensor
hk_readings p enabled base_node_cfg base_node_stat =
    (
      p ++ codes "mischerlaufzeit_maximum",
      create_duration_sensor (p ++ codes "mischerlaufzeit_maximum")
          (decimal (base_node_cfg + 41) ++ codes "T") polling_group_4
          (codes "mdi:timer-settings-outline") (codes "iSEK") seconds (some measurement) none
          enabled,
    )
    ∷ (
      p ++ codes "pumpe_ein_freigabetemperatur",
      create_temp_sensor (p ++ codes "pumpe_ein_freigabetemperatur")
          (decimal (base_node_cfg + 46) ++ codes "T") polling_group_4 (codes "mdi:pump-outline")
          none enabled,
    )
    ∷ (
      p ++ codes "pumpe_aus_aussentemperatur",
      create_number_entity (p ++ codes "pumpe_aus_aussentemperatur")
          (decimal (base_node_cfg + 47) ++ codes "T") polling_group_4 (codes "mdi:pump-off-outline")
          (codes "int") (pos 0) (pos 500) (pos 10) (some celsius) (some DeviceClass.temperature)
          (some (codes "iTEMP")) (some measurement) enabled,
    )
    ∷ (
      p ++ codes "frostschutz_temp",
      create_temp_sensor (p ++ codes "frostschutz_temp") (decimal (base_node_cfg + 48) ++ codes "T")
          polling_group_4 (codes "mdi:snowflake-thermometer") none enabled,
    )
    ∷ (
      p ++ codes "eco_absenken_aus_aussentemperatur",
      create_number_entity (p ++ codes "eco_absenken_aus_aussentemperatur")
          (decimal (base_node_cfg + 49) ++ codes "T") polling_group_4 (codes "mdi:leaf-thermometer")
          (codes "int") (pos 0) (pos 500) (pos 10) (some celsius) (some DeviceClass.temperature)
          (some (codes "iTEMP")) (some measurement) enabled,
    )
    ∷ (
      p ++ codes "restwarme_aufnehmen",
      create_enum_sensor (p ++ codes "restwarme_aufnehmen")
          (decimal (base_node_cfg + 67) ++ codes "T") polling_group_4 (codes "mdi:heat-wave") none
          none enabled,
    )
    ∷ (
      p ++ codes "vorlauftemperatur_ist",
      create_temp_sensor (p ++ codes "vorlauftemperatur_ist")
          (decimal (base_node_stat + 0) ++ codes "T") polling_group_1 (codes "mdi:radiator") none
          enabled,
    )
    ∷ (
      p ++ codes "vorlauftemperatur_soll",
      create_temp_sensor (p ++ codes "vorlauftemperatur_soll")
          (decimal (base_node_stat + 99) ++ codes "T") polling_group_1 (codes "mdi:radiator") none
          enabled,
    )
    ∷ (
      p ++ codes "aktuelle_betriebsart",
      create_diagnostic_enum_sensor (p ++ codes "aktuelle_betriebsart")
          (decimal (base_node_stat + 11) ++ codes "T") polling_group_2
          (codes "mdi:home-thermometer-outline") enabled,
    )
    ∷ (
      p ++ codes "mischer_status_text",
      create_enum_sensor (p ++ codes "mischer_status_text")
          (decimal (base_node_stat + 7) ++ codes "T") polling_group_2 (codes "mdi:valve-settings")
          (some diagnostic) none enabled,
    )
    ∷ (
      p ++ codes "pumpe_status_text",
      create_enum_sensor (p ++ codes "pumpe_status_text")
          (decimal (base_node_stat + 8) ++ codes "T") polling_group_2 (codes "mdi:pump")
          (some diagnostic) none enabled,
    )
    ∷ (
      p ++ codes "temp_quelle_status_wert",
      create_general_sensor (p ++ codes "temp_quelle_status_wert")
          (decimal (base_node_stat + 4) ++ codes "T") polling_group_5 (codes "2") (codes "float")
          (codes "mdi:thermometer-lines") none none none (some measurement) none enabled,
    )
    ∷ []

-- the two that only the first circuit has
hk_limits : Items SensorDefinition
unfolding create_temp_sensor
hk_limits =
    (
      codes "heizgrenze_sommer",
      create_temp_sensor (codes "heizgrenze_sommer") (codes "6050T") polling_group_4
          (codes "mdi:weather-sunny-alert") none true,
    )
    ∷ (
      codes "heizgrenze_winter",
      create_temp_sensor (codes "heizgrenze_winter") (codes "6051T") polling_group_4
          (codes "mdi:weather-snowy-heavy") none true,
    )
    ∷ []

-- `defn["component_group"] = group` for each
unfoldable pub with_groups : Text → Items SensorDefinition → Items SensorDefinition
unfolding with_group
with_groups group [] = []
with_groups group ((key, defn) ∷ defs) = (key, with_group defn group) ∷ with_groups group defs

unfoldable pub get_hk_definitions : ℕ → ℕ → ℕ → Items SensorDefinition
unfolding hk_settings hk_readings hk_limits with_groups decimal
get_hk_definitions idx base_node_cfg base_node_stat =
    let p = codes "hk" ++ decimal idx ++ codes "_" in
    let sys_key = codes "heizkreis_" ++ decimal idx ++ codes "_system" in
    let enabled = idx == 1 in
    let defs =
      hk_settings p sys_key enabled base_node_cfg
      ++ hk_readings p enabled base_node_cfg base_node_stat in
    if enabled then defs ++ hk_limits else with_groups (codes "hk" ++ decimal idx) defs
