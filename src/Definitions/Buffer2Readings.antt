-- ===== src/Definitions/Buffer2Readings.antt =====
-- Rows of SENSOR_DEFINITIONS in custom_components/hdg_boiler/definitions.py: the second buffer.
use hdg_bavaria_homeassistan.Prelude.{codes, false, none, some, [], ◌∷◌}
use hdg_bavaria_homeassistan.Models.{
  SensorDefinition, DeviceClass, celsius, diagnostic, kilo_watt_hour, measurement, total,
  total_increasing, pos,
}
use hdg_bavaria_homeassistan.Definitions.Base.{
  Items, polling_group_1, polling_group_2, polling_group_5,
}
use hdg_bavaria_homeassistan.Definitions.Factories.{
  create_enum_sensor, create_number_entity, create_temp_sensor,
}
use hdg_bavaria_homeassistan.Definitions.Measures.{create_energy_sensor, create_percentage_sensor}

unfoldable pub buffer2_readings : Items SensorDefinition
unfolding create_energy_sensor create_enum_sensor create_number_entity create_percentage_sensor
    create_temp_sensor
buffer2_readings =
    (
      codes "puffer_2_temperatur_oben",
      create_temp_sensor (codes "puffer_2_temperatur_oben") (codes "24100T") polling_group_1
          (codes "mdi:coolant-temperature") none false,
    )
    ∷ (
      codes "puffer_2_temperatur_mitte",
      create_temp_sensor (codes "puffer_2_temperatur_mitte") (codes "24101T") polling_group_1
          (codes "mdi:coolant-temperature") none false,
    )
    ∷ (
      codes "puffer_2_temperatur_unten",
      create_temp_sensor (codes "puffer_2_temperatur_unten") (codes "24102T") polling_group_1
          (codes "mdi:coolant-temperature") none false,
    )
    ∷ (
      codes "puffer_2_ladung_ein_temperatur",
      create_number_entity (codes "puffer_2_ladung_ein_temperatur") (codes "4122T") polling_group_5
          (codes "mdi:thermometer-chevron-up") (codes "int") (pos 0) (pos 950) (pos 10)
          (some celsius) (some DeviceClass.temperature) (some (codes "iTEMP")) (some measurement)
          false,
    )
    ∷ (
      codes "puffer_2_ladung_aus_temperatur",
      create_number_entity (codes "puffer_2_ladung_aus_temperatur") (codes "4124T") polling_group_5
          (codes "mdi:thermometer-chevron-down") (codes "int") (pos 0) (pos 950) (pos 10)
          (some celsius) (some DeviceClass.temperature) (some (codes "iTEMP")) (some measurement)
          false,
    )
    ∷ (
      codes "puffer_2_status",
      create_enum_sensor (codes "puffer_2_status") (codes "24115T") polling_group_2
          (codes "mdi:propane-tank-outline") (some diagnostic) none false,
    )
    ∷ (
      codes "puffer_2_energie_max",
      create_energy_sensor (codes "puffer_2_energie_max") (codes "24116T") polling_group_5
          (codes "mdi:battery-arrow-up") (codes "iKWH") kilo_watt_hour none none
          (some DeviceClass.energy) false,
    )
    ∷ (
      codes "puffer_2_energie_aktuell",
      create_energy_sensor (codes "puffer_2_energie_aktuell") (codes "24117T") polling_group_2
          (codes "mdi:lightning-bolt") (codes "iKWH") kilo_watt_hour (some total) none
          (some DeviceClass.energy) false,
    )
    ∷ (
      codes "puffer_2_ladezustand_alt",
      create_percentage_sensor (codes "puffer_2_ladezustand_alt") (codes "24119T") polling_group_5
          (codes "mdi:battery-70") (some measurement) none (some DeviceClass.battery) false,
    )
    ∷ (
      codes "puffer_2_energie_gesamt_zahler",
      create_energy_sensor (codes "puffer_2_energie_gesamt_zahler") (codes "24120T") polling_group_5
          (codes "mdi:counter") (codes "iKWH") kilo_watt_hour (some total_increasing)
          (some diagnostic) (some DeviceClass.energy) false,
    )
    ∷ (
      codes "puffer_2_energie_ist",
      create_energy_sensor (codes "puffer_2_energie_ist") (codes "24121T") polling_group_5
          (codes "mdi:battery-heart-variant") (codes "iKWH") kilo_watt_hour (some measurement) none
          none false,
    )
    ∷ (
      codes "puffer_2_energie_aufnehmbar",
      create_energy_sensor (codes "puffer_2_energie_aufnehmbar") (codes "24122T") polling_group_5
          (codes "mdi:battery-plus-variant") (codes "iKWH") kilo_watt_hour (some measurement) none
          none false,
    )
    ∷ (
      codes "puffer_2_ladezustand",
      create_percentage_sensor (codes "puffer_2_ladezustand") (codes "24123T") polling_group_1
          (codes "mdi:battery-charging-70") (some measurement) none (some DeviceClass.battery)
          false,
    )
    ∷ (
      codes "puffer_2_vorlauf_extern",
      create_temp_sensor (codes "puffer_2_vorlauf_extern") (codes "24198T") polling_group_5
          (codes "mdi:thermometer-chevron-up") none false,
    )
    ∷ (
      codes "puffer_2_rucklauf_extern",
      create_temp_sensor (codes "puffer_2_rucklauf_extern") (codes "24199T") polling_group_5
          (codes "mdi:thermometer-chevron-down") none false,
    )
    ∷ (
      codes "ww1_temperatur_ist",
      create_temp_sensor (codes "ww1_temperatur_ist") (codes "28000T") polling_group_1
          (codes "mdi:thermometer") none false,
    )
    ∷ []
