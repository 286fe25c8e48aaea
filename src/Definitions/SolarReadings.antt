-- ===== src/Definitions/SolarReadings.antt =====
-- Rows of SENSOR_DEFINITIONS in custom_components/hdg_boiler/definitions.py: solar, storage and the external heat source.
use hdg_bavaria_homeassistan.Prelude.{codes, true, false, none, some, [], ◌∷◌}
use hdg_bavaria_homeassistan.Models.{
  SensorDefinition, DeviceClass, diagnostic, kilo_watt_hour, kilograms, tonnes, total_increasing,
}
use hdg_bavaria_homeassistan.Definitions.Base.{
  Items, ext_wq_operating_mode_options, polling_group_1, polling_group_2, polling_group_5,
  with_group,
}
use hdg_bavaria_homeassistan.Definitions.Factories.{
  create_general_sensor, create_select_entity, create_temp_sensor,
}
use hdg_bavaria_homeassistan.Definitions.Measures.{create_energy_sensor, create_mass_sensor}

unfoldable pub solar_readings : Items SensorDefinition
unfolding create_energy_sensor create_general_sensor create_mass_sensor create_select_entity
    create_temp_sensor with_group
solar_readings =
    (
      codes "solar_ertrag_gesamt",
      with_group
          (create_energy_sensor (codes "solar_ertrag_gesamt") (codes "29011T") polling_group_5
            (codes "mdi:solar-power") (codes "iKWH") kilo_watt_hour (some total_increasing) none
            (some DeviceClass.energy) false)
          (codes "solar"),
    )
    ∷ (
      codes "lager_pelletverbrauch_insgesamt",
      create_mass_sensor (codes "lager_pelletverbrauch_insgesamt") (codes "21005T") polling_group_5
          (codes "mdi:chart-histogram") (codes "iT") tonnes (some total_increasing)
          (some diagnostic) false,
    )
    ∷ (
      codes "lager_verbrauch_seit_fuellung",
      create_mass_sensor (codes "lager_verbrauch_seit_fuellung") (codes "21007T") polling_group_5
          (codes "mdi:chart-timeline-variant") (codes "iKG") kilograms (some total_increasing)
          (some diagnostic) false,
    )
    ∷ (
      codes "lager_letzte_fuellung",
      create_general_sensor (codes "lager_letzte_fuellung") (codes "21008T") polling_group_5
          (codes "4") (codes "text") (codes "mdi:calendar-clock") none none none none
          (some diagnostic) false,
    )
    ∷ (
      codes "externe_warmequelle_betriebsart",
      with_group
          (create_select_entity (codes "externe_warmequelle_betriebsart") (codes "25001T")
            polling_group_2 (codes "mdi:fire") ext_wq_operating_mode_options none (some true) false)
          (codes "ext_wq"),
    )
    ∷ (
      codes "externe_warmequelle_temperatur",
      with_group
          (create_temp_sensor (codes "externe_warmequelle_temperatur") (codes "25006T")
            polling_group_1 (codes "mdi:thermometer") none false)
          (codes "ext_wq"),
    )
    ∷ []
