-- ===== src/Definitions/BufferReadings.antt =====
-- Rows of SENSOR_DEFINITIONS in custom_components/hdg_boiler/definitions.py: the first buffer.
use hdg_bavaria_homeassistan.Prelude.{codes, true, false, none, some, [], ◌∷◌}
use hdg_bavaria_homeassistan.Models.{
  SensorDefinition, DeviceClass, celsius, diagnostic, hours, kilo_watt_hour, measurement, total,
  total_increasing, pos,
}
use hdg_bavaria_homeassistan.Definitions.Base.{
  Items, polling_group_1, polling_group_2, polling_group_5,
}
use hdg_bavaria_homeassistan.Definitions.Factories.{
  create_enum_sensor, create_number_entity, create_temp_sensor,
}
use hdg_bavaria_homeassistan.Definitions.Measures.{
  create_duration_sensor, create_energy_sensor, create_percentage_sensor,
}

unfoldable pub buffer_readings : Items SensorDefinition
unfolding create_duration_sensor create_energy_sensor create_enum_sensor create_number_entity
    create_percentage_sensor create_temp_sensor
buffer_readings =
    (
      codes "kessel_stillstandszeit",
      create_duration_sensor (codes "kessel_stillstandszeit") (codes "22070T") polling_group_1
          (codes "mdi:timer-sand-complete") (codes "iSTD") hours (some total_increasing)
          (some diagnostic) true,
    )
    ∷ (
      codes "angeforderte_temperatur_abnehmer",
      create_temp_sensor (codes "angeforderte_temperatur_abnehmer") (codes "22098T") polling_group_1
          (codes "mdi:thermometer-alert") none true,
    )
    ∷ (
      codes "puffer_temperatur_oben",
      create_temp_sensor (codes "puffer_temperatur_oben") (codes "24000T") polling_group_1
          (codes "mdi:coolant-temperature") none true,
    )
    ∷ (
      codes "puffer_temperatur_mitte",
      create_temp_sensor (codes "puffer_temperatur_mitte") (codes "24001T") polling_group_1
          (codes "mdi:coolant-temperature") none true,
    )
    ∷ (
      codes "puffer_temperatur_unten",
      create_temp_sensor (codes "puffer_temperatur_unten") (codes "24002T") polling_group_1
          (codes "mdi:coolant-temperature") none true,
    )
    ∷ (
      codes "puffer_ladung_ein_temperatur",
      create_number_entity (codes "puffer_ladung_ein_temperatur") (codes "4022T") polling_group_5
          (codes "mdi:thermometer-chevron-up") (codes "int") (pos 0) (pos 950) (pos 10)
          (some celsius) (some DeviceClass.temperature) (some (codes "iTEMP")) (some measurement)
          false,
    )
    ∷ (
      codes "puffer_ladung_aus_temperatur",
      create_number_entity (codes "puffer_ladung_aus_temperatur") (codes "4024T") polling_group_5
          (codes "mdi:thermometer-chevron-down") (codes "int") (pos 0) (pos 950) (pos 10)
          (some celsius) (some DeviceClass.temperature) (some (codes "iTEMP")) (some measurement)
          false,
    )
    ∷ (
      codes "puffer_status",
      create_enum_sensor (codes "puffer_status") (codes "24015T") polling_group_2
          (codes "mdi:propane-tank-outline") (some diagnostic) none true,
    )
    ∷ (
      codes "puffer_energie_max",
      create_energy_sensor (codes "puffer_energie_max") (codes "24016T") polling_group_5
          (codes "mdi:battery-arrow-up") (codes "iKWH") kilo_watt_hour none none
          (some DeviceClass.energy) true,
    )
    ∷ (
      codes "puffer_energie_aktuell",
      create_energy_sensor (codes "puffer_energie_aktuell") (codes "24017T") polling_group_2
          (codes "mdi:lightning-bolt") (codes "iKWH") kilo_watt_hour (some total) none
          (some DeviceClass.energy) true,
    )
    ∷ (
      codes "puffer_ladezustand_alt",
      create_percentage_sensor (codes "puffer_ladezustand_alt") (codes "24019T") polling_group_5
          (codes "mdi:battery-70") (some measurement) none (some DeviceClass.battery) true,
    )
    ∷ (
      codes "puffer_energie_gesamt_zahler",
      create_energy_sensor (codes "puffer_energie_gesamt_zahler") (codes "24020T") polling_group_5
          (codes "mdi:counter") (codes "iKWH") kilo_watt_hour (some total_increasing)
          (some diagnostic) (some DeviceClass.energy) true,
    )
    ∷ (
      codes "puffer_energie_ist",
      create_energy_sensor (codes "puffer_energie_ist") (codes "24021T") polling_group_5
          (codes "mdi:battery-heart-variant") (codes "iKWH") kilo_watt_hour (some measurement) none
          none true,
    )
    ∷ (
      codes "puffer_energie_aufnehmbar",
      create_energy_sensor (codes "puffer_energie_aufnehmbar") (codes "24022T") polling_group_5
          (codes "mdi:battery-plus-variant") (codes "iKWH") kilo_watt_hour (some measurement) none
          none true,
    )
    ∷ (
      codes "puffer_ladezustand",
      create_percentage_sensor (codes "puffer_ladezustand") (codes "24023T") polling_group_1
          (codes "mdi:battery-charging-70") (some measurement) none (some DeviceClass.battery) true,
    )
    ∷ (
      codes "puffer_vorlauf_extern",
      create_temp_sensor (codes "puffer_vorlauf_extern") (codes "24098T") polling_group_5
          (codes "mdi:thermometer-chevron-up") none true,
    )
    ∷ (
      codes "puffer_rucklauf_extern",
      create_temp_sensor (codes "puffer_rucklauf_extern") (codes "24099T") polling_group_5
          (codes "mdi:thermometer-chevron-down") none true,
    )
    ∷ []
