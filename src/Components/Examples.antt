-- ===== src/Components/Examples.antt =====
-- One entity of the second heating circuit: custom_components/hdg_boiler/__init__.py
use hdg_bavaria_homeassistan.Prelude.{
  ◌≡◌, refl, Text, codes, Bool, true, false, not, ◌||◌, some, [], ◌∷◌, ◌==◌, arith, all, text_eq,
  if◌then◌else◌,
}
use hdg_bavaria_homeassistan.Prelude.Dict.{Dict, lookup}
use hdg_bavaria_homeassistan.Models.{SensorDefinition}
use hdg_bavaria_homeassistan.Definitions.{get_sensor_definitions}
use hdg_bavaria_homeassistan.Definitions.Base.{create_sensor_definition}
use hdg_bavaria_homeassistan.Entries.{by_integration, is_disabled, node_unique_id}
use hdg_bavaria_homeassistan.Entries.UniqueId.{not_colon, is_plain, IsQuote}
use hdg_bavaria_homeassistan.Components.{
  component_group_options, group_flag, suffix_to_enabled, sync_entity, registry_enabled_default,
}
use hdg_bavaria_homeassistan.Components.Groups.{component_groups_are_known}
use hdg_bavaria_homeassistan.Components.Synced.{
  group_option_decides, is_held, fresh_entity_is_kept, new_disabled_by,
}

component_groups_are_known_example :
    (m : Dict Bool) × (suffix_to_enabled [] (get_sensor_definitions []) ≡ some m)
component_groups_are_known_example = component_groups_are_known [] []

-- a quoting that leaves colons out
without_colons : Text → Text
without_colons [] = []
without_colons (c ∷ s) = let rest = without_colons s in if c == b':' then rest else c ∷ rest

without_colons-not_colon : (s : Text) → all not_colon (without_colons s) ≡ true
unfolding without_colons
without_colons-not_colon [] = refl
without_colons-not_colon (c ∷ s) = ground (arith, without_colons-not_colon s)

without_colons-plain : (s : Text) → all is_plain s ≡ true → without_colons s ≡ s
unfolding without_colons
without_colons-plain [] h = refl
without_colons-plain (c ∷ s) h = ground (arith, without_colons-plain s)

without_colons-IsQuote : IsQuote without_colons
without_colons-IsQuote = (without_colons-not_colon, without_colons-plain)

abbrev hk2_mode : SensorDefinition
hk2_mode =
    record (create_sensor_definition (codes "6108T") (codes "hk2_mode") (codes "group_2")
      (codes "10") (codes "text")) { component_group = some (codes "hk2") }

abbrev one_definition : Dict SensorDefinition
one_definition = (codes "hk2_mode", hk2_mode) ∷ []

abbrev hk2_on : Dict Bool
hk2_on = (codes "enable_hk2", true) ∷ []

abbrev hk2_enabled : Dict Bool
hk2_enabled = (codes "hk2_mode", true) ∷ []

group_option_decides_example :
    is_disabled
      (sync_entity hk2_enabled (record {
        unique_id = node_unique_id without_colons (codes "kessel") (codes "hk2_mode");
        disabled_by = some by_integration;
      })).disabled_by
    ≡ (not (group_flag hk2_on (codes "enable_hk2", false)) || is_held (some by_integration))
unfolding lookup suffix_to_enabled text_eq component_group_options group_flag
    create_sensor_definition
group_option_decides_example =
    group_option_decides without_colons hk2_on one_definition hk2_enabled (codes "kessel")
      (codes "hk2_mode") hk2_mode (some by_integration) b'h' (codes "k2")
      (codes "enable_hk2", false) without_colons-IsQuote refl (refl, tt) refl refl refl refl

fresh_entity_is_kept_example :
    sync_entity hk2_enabled (record {
      unique_id = node_unique_id without_colons (codes "kessel") (codes "hk2_mode");
      disabled_by = new_disabled_by (registry_enabled_default hk2_on hk2_mode);
    })
    ≡ record {
      unique_id = node_unique_id without_colons (codes "kessel") (codes "hk2_mode");
      disabled_by = new_disabled_by (registry_enabled_default hk2_on hk2_mode);
    }
unfolding lookup suffix_to_enabled text_eq component_group_options group_flag
    create_sensor_definition
fresh_entity_is_kept_example =
    fresh_entity_is_kept without_colons hk2_on one_definition hk2_enabled (codes "kessel")
      (codes "hk2_mode") hk2_mode without_colons-IsQuote refl (refl, tt) refl refl
