-- ===== src/Definitions/RuntimeReadings.antt =====
-- Rows of SENSOR_DEFINITIONS in custom_components/hdg_boiler/definitions.py: run times and demand.
use hdg_bavaria_homeassistan.Prelude.{codes, true, none, some, [], ◌∷◌}
use hdg_bavaria_homeassistan.Models.{
  SensorDefinition, diagnostic, hours, measurement, total_increasing,
}
use hdg_bavaria_homeassistan.Definitions.Base.{
  Items, polling_group_1, polling_group_2, polling_group_5,
}
use hdg_bavaria_homeassistan.Definitions.Factories.{
  create_enum_sensor, create_general_sensor, create_temp_sensor,
}
use hdg_bavaria_homeassistan.Definitions.Measures.{
  create_duration_sensor, create_percentage_sensor, create_pressure_sensor,
}

unfoldable pub runtime_readings : Items SensorDefinition
unfolding create_duration_sensor create_enum_sensor create_general_sensor create_percentage_sensor
    create_pressure_sensor create_temp_sensor
runtime_readings =
    (
      codes "laufzeit_hauptgeblase",
      create_duration_sensor (codes "laufzeit_hauptgeblase") (codes "22014T") polling_group_5
          (codes "mdi:fan-clock") (codes "iSTD") hours (some total_increasing) (some diagnostic)
          true,
    )
    ∷ (
      codes "laufzeit_zundgeblase",
      create_duration_sensor (codes "laufzeit_zundgeblase") (codes "22015T") polling_group_5
          (codes "mdi:fan-plus") (codes "iSTD") hours (some total_increasing) (some diagnostic)
          true,
    )
    ∷ (
      codes "anzahl_rostkippungen",
      create_general_sensor (codes "anzahl_rostkippungen") (codes "22016T") polling_group_5
          (codes "2") (codes "float") (codes "mdi:recycle-variant") none none none
          (some total_increasing) (some diagnostic) true,
    )
    ∷ (
      codes "primarluftklappe_soll",
      create_percentage_sensor (codes "primarluftklappe_soll") (codes "22019T") polling_group_1
          (codes "mdi:valve-closed") (some measurement) none none true,
    )
    ∷ (
      codes "kessel_haupt_betriebsart",
      create_enum_sensor (codes "kessel_haupt_betriebsart") (codes "22020T") polling_group_2
          (codes "mdi:cogs") (some diagnostic) none true,
    )
    ∷ (
      codes "kessel_externe_anforderung",
      create_percentage_sensor (codes "kessel_externe_anforderung") (codes "22021T") polling_group_1
          (codes "mdi:call-made") (some measurement) none none true,
    )
    ∷ (
      codes "kesselvorlauf_solltemperatur",
      create_temp_sensor (codes "kesselvorlauf_solltemperatur") (codes "22022T") polling_group_1
          (codes "mdi:thermometer-chevron-up") none true,
    )
    ∷ (
      codes "kesselrucklauf_solltemperatur",
      create_temp_sensor (codes "kesselrucklauf_solltemperatur") (codes "22023T") polling_group_1
          (codes "mdi:thermometer-water") none true,
    )
    ∷ (
      codes "kesselleistung_ist",
      create_percentage_sensor (codes "kesselleistung_ist") (codes "22024T") polling_group_1
          (codes "mdi:fire-circle") (some measurement) none none true,
    )
    ∷ (
      codes "kessel_restlaufzeit_wartung",
      create_duration_sensor (codes "kessel_restlaufzeit_wartung") (codes "22025T") polling_group_5
          (codes "mdi:wrench-clock") (codes "iSTD") hours (some measurement) (some diagnostic) true,
    )
    ∷ (
      codes "kessel_betriebsphase_text",
      create_enum_sensor (codes "kessel_betriebsphase_text") (codes "22026T") polling_group_2
          (codes "mdi:state-machine") (some diagnostic) none true,
    )
    ∷ (
      codes "kessel_wirkungsgrad",
      create_percentage_sensor (codes "kessel_wirkungsgrad") (codes "22028T") polling_group_5
          (codes "mdi:chart-bell-curve-cumulative") (some measurement) none none true,
    )
    ∷ (
      codes "kessel_ausbrandgrund",
      create_enum_sensor (codes "kessel_ausbrandgrund") (codes "22029T") polling_group_2
          (codes "mdi:fire-alert") (some diagnostic) none true,
    )
    ∷ (
      codes "kessel_saugzuggeblase_ist",
      create_percentage_sensor (codes "kessel_saugzuggeblase_ist") (codes "22030T") polling_group_1
          (codes "mdi:fan") (some measurement) none none true,
    )
    ∷ (
      codes "kessel_unterdruck_ist",
      create_pressure_sensor (codes "kessel_unterdruck_ist") (codes "22031T") polling_group_1
          (codes "mdi:gauge-low") none true,
    )
    ∷ (
      codes "sekundarluftklappe_soll",
      create_percentage_sensor (codes "sekundarluftklappe_soll") (codes "22033T") polling_group_1
          (codes "mdi:valve-closed") (some measurement) none none true,
    )
    ∷ (
      codes "betriebsstunden_rostmotor",
      create_duration_sensor (codes "betriebsstunden_rostmotor") (codes "22037T") polling_group_5
          (codes "mdi:cog-counterclockwise") (codes "iSTD") hours (some total_increasing)
          (some diagnostic) true,
    )
    ∷ (
      codes "betriebsstunden_stokerschnecke",
      create_duration_sensor (codes "betriebsstunden_stokerschnecke") (codes "22038T")
          polling_group_5 (codes "mdi:screw-lag") (codes "iSTD") hours (some total_increasing)
          (some diagnostic) true,
    )
    ∷ (
      codes "betriebsstunden_ascheschnecke",
      create_duration_sensor (codes "betriebsstunden_ascheschnecke") (codes "22039T")
          polling_group_5 (codes "mdi:screw-lag") (codes "iSTD") hours (some total_increasing)
          (some diagnostic) true,
    )
    ∷ []
