-- ===== src/Definitions/NetworkPump.antt =====
-- `get_netzpumpe_definitions` and `get_netzpumpe_param_definitions` of
-- custom_components/hdg_boiler/definitions.py.
use hdg_bavaria_homeassistan.Prelude.{◌+◌, ℕ, Text, codes, false, none, some, [], ◌∷◌, ◌++◌}
use hdg_bavaria_homeassistan.Protocol.{decimal}
use hdg_bavaria_homeassistan.Definitions.HeatingCircuit.{with_groups}
use hdg_bavaria_homeassistan.Models.{
  SensorDefinition, DeviceClass, celsius, diagnostic, measurement, pos,
}
use hdg_bavaria_homeassistan.Definitions.Base.{
  Items, polling_group_1, polling_group_2, polling_group_5,
}
use hdg_bavaria_homeassistan.Definitions.Factories.{
  create_diagnostic_enum_sensor, create_enum_sensor, create_number_entity, create_temp_sensor,
}

pump_readings : Text → ℕ → Items SensorDefinition
unfolding decimal create_diagnostic_enum_sensor create_enum_sensor create_temp_sensor
pump_readings p base_node =
    (
      p ++ codes "temperatur",
      create_temp_sensor (p ++ codes "temperatur") (decimal (base_node + 1) ++ codes "T")
          polling_group_1 (codes "mdi:thermometer") none false,
    )
    ∷ (
      p ++ codes "status_text",
      create_enum_sensor (p ++ codes "status_text") (decimal (base_node + 2) ++ codes "T")
          polling_group_2 (codes "mdi:pump") (some diagnostic) none false,
    )
    ∷ (
      p ++ codes "betriebsart",
      create_diagnostic_enum_sensor (p ++ codes "betriebsart")
          (decimal (base_node + 3) ++ codes "T") polling_group_2 (codes "mdi:pump-outline") false,
    )
    ∷ []

unfoldable pub get_netzpumpe_definitions : ℕ → ℕ → Items SensorDefinition
unfolding pump_readings with_groups decimal
get_netzpumpe_definitions idx base_node =
    with_groups (codes "netzpumpe_" ++ decimal idx)
      (pump_readings (codes "netzpumpe_" ++ decimal idx ++ codes "_") base_node)

pump_settings : Text → ℕ → Items SensorDefinition
unfolding decimal create_number_entity
pump_settings p base_node =
    (
      p ++ codes "freigabetemperatur",
      create_number_entity (p ++ codes "freigabetemperatur") (decimal (base_node + 23) ++ codes "T")
          polling_group_5 (codes "mdi:thermometer-check") (codes "int") (pos 0) (pos 950) (pos 10)
          (some celsius) (some DeviceClass.temperature) (some (codes "iTEMP")) (some measurement)
          false,
    )
    ∷ []

unfoldable pub get_netzpumpe_param_definitions : ℕ → ℕ → Items SensorDefinition
unfolding pump_settings with_groups decimal
get_netzpumpe_param_definitions idx base_node =
    with_groups (codes "netzpumpe_" ++ decimal idx)
      (pump_settings (codes "netzpumpe_" ++ decimal idx ++ codes "_") base_node)
