-- ===== src/Definitions/WaterReadings.antt =====
-- Rows of SENSOR_DEFINITIONS in custom_components/hdg_boiler/definitions.py: hot water.
use hdg_bavaria_homeassistan.Prelude.{codes, false, none, some, [], ◌∷◌}
use hdg_bavaria_homeassistan.Models.{
  SensorDefinition, DeviceClass, celsius, diagnostic, measurement, pos,
}
use hdg_bavaria_homeassistan.Definitions.Base.{Items, polling_group_1, with_group}
use hdg_bavaria_homeassistan.Definitions.Factories.{
  create_enum_sensor, create_number_entity, create_temp_sensor,
}
use hdg_bavaria_homeassistan.Definitions.Measures.{create_percentage_sensor}

unfoldable pub water_readings : Items SensorDefinition
unfolding create_enum_sensor create_number_entity create_percentage_sensor create_temp_sensor
    with_group
water_readings =
    (
      codes "ww1_temperatur_vorlauf_solar_ist",
      create_temp_sensor (codes "ww1_temperatur_vorlauf_solar_ist") (codes "28003T") polling_group_1
          (codes "mdi:solar-power-variant") none false,
    )
    ∷ (
      codes "ww1_ladungspumpe_status_text",
      create_enum_sensor (codes "ww1_ladungspumpe_status_text") (codes "28004T") polling_group_1
          (codes "mdi:pump") (some diagnostic) none false,
    )
    ∷ (
      codes "ww1_erhitzen_an_schwelle",
      create_number_entity (codes "ww1_erhitzen_an_schwelle") (codes "8021T") polling_group_1
          (codes "mdi:thermometer-chevron-up") (codes "int") (pos 100) (pos 600) (pos 10)
          (some celsius) (some DeviceClass.temperature) (some (codes "iTEMP")) (some measurement)
          false,
    )
    ∷ (
      codes "ww1_erhitzen_aus_schwelle",
      create_number_entity (codes "ww1_erhitzen_aus_schwelle") (codes "8022T") polling_group_1
          (codes "mdi:thermometer-chevron-down") (codes "int") (pos 200) (pos 700) (pos 10)
          (some celsius) (some DeviceClass.temperature) (some (codes "iTEMP")) (some measurement)
          false,
    )
    ∷ (
      codes "ww1_angeforderte_temperatur_status",
      create_enum_sensor (codes "ww1_angeforderte_temperatur_status") (codes "28099T")
          polling_group_1 (codes "mdi:thermometer-plus") (some diagnostic) none false,
    )
    ∷ (
      codes "ww2_temperatur_ist",
      create_temp_sensor (codes "ww2_temperatur_ist") (codes "28100T") polling_group_1
          (codes "mdi:thermometer") none false,
    )
    ∷ (
      codes "ww2_temperatur_vorlauf_solar_ist",
      create_temp_sensor (codes "ww2_temperatur_vorlauf_solar_ist") (codes "28103T") polling_group_1
          (codes "mdi:solar-power-variant") none false,
    )
    ∷ (
      codes "ww2_ladungspumpe_status_text",
      create_enum_sensor (codes "ww2_ladungspumpe_status_text") (codes "28104T") polling_group_1
          (codes "mdi:pump") (some diagnostic) none false,
    )
    ∷ (
      codes "ww2_erhitzen_an_schwelle",
      create_number_entity (codes "ww2_erhitzen_an_schwelle") (codes "8121T") polling_group_1
          (codes "mdi:thermometer-chevron-up") (codes "int") (pos 100) (pos 600) (pos 10)
          (some celsius) (some DeviceClass.temperature) (some (codes "iTEMP")) (some measurement)
          false,
    )
    ∷ (
      codes "ww2_erhitzen_aus_schwelle",
      create_number_entity (codes "ww2_erhitzen_aus_schwelle") (codes "8122T") polling_group_1
          (codes "mdi:thermometer-chevron-down") (codes "int") (pos 200) (pos 700) (pos 10)
          (some celsius) (some DeviceClass.temperature) (some (codes "iTEMP")) (some measurement)
          false,
    )
    ∷ (
      codes "ww2_angeforderte_temperatur_status",
      create_enum_sensor (codes "ww2_angeforderte_temperatur_status") (codes "28199T")
          polling_group_1 (codes "mdi:thermometer-plus") (some diagnostic) none false,
    )
    ∷ (
      codes "solar_kollektortemperatur",
      with_group
          (create_temp_sensor (codes "solar_kollektortemperatur") (codes "29000T") polling_group_1
            (codes "mdi:solar-panel-large") none false)
          (codes "solar"),
    )
    ∷ (
      codes "solar_pumpe_prozent",
      with_group
          (create_percentage_sensor (codes "solar_pumpe_prozent") (codes "29003T") polling_group_1
            (codes "mdi:pump") (some measurement) none none false)
          (codes "solar"),
    )
    ∷ (
      codes "solar_pumpe_status_text",
      with_group
          (create_enum_sensor (codes "solar_pumpe_status_text") (codes "29007T") polling_group_1
            (codes "mdi:pump") (some diagnostic) none false)
          (codes "solar"),
    )
    ∷ []
