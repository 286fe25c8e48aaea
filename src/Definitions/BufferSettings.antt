-- ===== src/Definitions/BufferSettings.antt =====
-- Rows of SENSOR_DEFINITIONS in custom_components/hdg_boiler/definitions.py: the buffers.
use hdg_bavaria_homeassistan.Prelude.{codes, true, false, none, some, [], ◌∷◌}
use hdg_bavaria_homeassistan.Models.{SensorDefinition, DeviceClass, liters}
use hdg_bavaria_homeassistan.Definitions.Base.{Items, polling_group_4}
use hdg_bavaria_homeassistan.Definitions.Factories.{
  create_diagnostic_text_sensor, create_enum_sensor, create_general_sensor, create_temp_sensor,
}

unfoldable pub buffer_settings : Items SensorDefinition
unfolding create_diagnostic_text_sensor create_enum_sensor create_general_sensor create_temp_sensor
buffer_settings =
    (
      codes "puffer_1_temperatur_kalt",
      create_temp_sensor (codes "puffer_1_temperatur_kalt") (codes "4061T") polling_group_4
          (codes "mdi:thermometer-low") none true,
    )
    ∷ (
      codes "puffer_1_temperatur_warm",
      create_temp_sensor (codes "puffer_1_temperatur_warm") (codes "4062T") polling_group_4
          (codes "mdi:thermometer-high") none true,
    )
    ∷ (
      codes "puffer_1_nachlegemenge_optimieren",
      create_enum_sensor (codes "puffer_1_nachlegemenge_optimieren") (codes "4064T") polling_group_4
          (codes "mdi:basket-check-outline") none none true,
    )
    ∷ (
      codes "puffer_1_grosse",
      create_general_sensor (codes "puffer_1_grosse") (codes "4065T") polling_group_4 (codes "1")
          (codes "float") (codes "mdi:propane-tank") (some (codes "iLITER"))
          (some DeviceClass.volume) (some liters) none none true,
    )
    ∷ (
      codes "puffer_1_umladesystem_aktivieren",
      create_enum_sensor (codes "puffer_1_umladesystem_aktivieren") (codes "4070T") polling_group_4
          (codes "mdi:sync-circle") none none true,
    )
    ∷ (
      codes "puffer_1_beladeventil_aktivieren",
      create_enum_sensor (codes "puffer_1_beladeventil_aktivieren") (codes "4090T") polling_group_4
          (codes "mdi:valve-check") none none true,
    )
    ∷ (
      codes "puffer_1_zonenventil_aktivieren",
      create_enum_sensor (codes "puffer_1_zonenventil_aktivieren") (codes "4091T") polling_group_4
          (codes "mdi:valve-check") none none true,
    )
    ∷ (
      codes "puffer_1_y2_ventil_aktivieren",
      create_enum_sensor (codes "puffer_1_y2_ventil_aktivieren") (codes "4095T") polling_group_4
          (codes "mdi:valve-check") none none true,
    )
    ∷ (
      codes "puffer_art",
      create_enum_sensor (codes "puffer_art") (codes "4099T") polling_group_4
          (codes "mdi:propane-tank-outline") none none true,
    )
    ∷ (
      codes "puffer_2_bezeichnung",
      create_diagnostic_text_sensor (codes "puffer_2_bezeichnung") (codes "4120T") polling_group_4
          (codes "mdi:information-outline") (codes "text") false,
    )
    ∷ (
      codes "puffer_2_ladung_abbruch_temperatur_oben",
      create_temp_sensor (codes "puffer_2_ladung_abbruch_temperatur_oben") (codes "4133T")
          polling_group_4 (codes "mdi:thermometer-off") none false,
    )
    ∷ (
      codes "puffer_2_fuhler_quelle",
      create_enum_sensor (codes "puffer_2_fuhler_quelle") (codes "4136T") polling_group_4
          (codes "mdi:thermometer-lines") none none false,
    )
    ∷ (
      codes "puffer_2_energieberechnung_aktivieren",
      create_enum_sensor (codes "puffer_2_energieberechnung_aktivieren") (codes "4160T")
          polling_group_4 (codes "mdi:calculator-variant-outline") none none false,
    )
    ∷ (
      codes "puffer_2_temperatur_kalt",
      create_temp_sensor (codes "puffer_2_temperatur_kalt") (codes "4161T") polling_group_4
          (codes "mdi:thermometer-low") none false,
    )
    ∷ (
      codes "puffer_2_temperatur_warm",
      create_temp_sensor (codes "puffer_2_temperatur_warm") (codes "4162T") polling_group_4
          (codes "mdi:thermometer-high") none false,
    )
    ∷ (
      codes "puffer_2_nachlegemenge_optimieren",
      create_enum_sensor (codes "puffer_2_nachlegemenge_optimieren") (codes "4164T") polling_group_4
          (codes "mdi:basket-check-outline") none none false,
    )
    ∷ (
      codes "puffer_2_grosse",
      create_general_sensor (codes "puffer_2_grosse") (codes "4165T") polling_group_4 (codes "1")
          (codes "float") (codes "mdi:propane-tank") (some (codes "iLITER"))
          (some DeviceClass.volume) (some liters) none none false,
    )
    ∷ (
      codes "puffer_2_umladesystem_aktivieren",
      create_enum_sensor (codes "puffer_2_umladesystem_aktivieren") (codes "4170T") polling_group_4
          (codes "mdi:sync-circle") none none false,
    )
    ∷ (
      codes "puffer_2_beladeventil_aktivieren",
      create_enum_sensor (codes "puffer_2_beladeventil_aktivieren") (codes "4190T") polling_group_4
          (codes "mdi:valve-check") none none false,
    )
    ∷ (
      codes "puffer_2_zonenventil_aktivieren",
      create_enum_sensor (codes "puffer_2_zonenventil_aktivieren") (codes "4191T") polling_group_4
          (codes "mdi:valve-check") none none false,
    )
    ∷ (
      codes "puffer_2_y2_ventil_aktivieren",
      create_enum_sensor (codes "puffer_2_y2_ventil_aktivieren") (codes "4195T") polling_group_4
          (codes "mdi:valve-check") none none false,
    )
    ∷ []
