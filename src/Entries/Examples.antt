-- ===== src/Entries/Examples.antt =====
-- Two entities of one node: custom_components/hdg_boiler/entity.py and
-- custom_components/hdg_boiler/coordinator.py
use hdg_bavaria_homeassistan.Prelude.{
  ◌≡◌, ◌&&◌, ◌||◌, refl, Text, codes, true, some, List, [], ◌∷◌, ◌==◌, any, all, arith, text_eq,
  if◌then◌else◌, ℕ,
}
use hdg_bavaria_homeassistan.Prelude.Dict.{Dict, lookup}
use hdg_bavaria_homeassistan.Models.{SensorDefinition}
use hdg_bavaria_homeassistan.Polling.{is_listed}
use hdg_bavaria_homeassistan.NodeId.{strip_hdg_node_suffix}
use hdg_bavaria_homeassistan.Definitions.Base.{create_sensor_definition}
use hdg_bavaria_homeassistan.Registry.{get_optimized_payload}
use hdg_bavaria_homeassistan.Registry.Groups.{build_polling_groups}
use hdg_bavaria_homeassistan.Registry.Groups.Contents.{nodes_at}
use hdg_bavaria_homeassistan.Registry.Indexes.{requested, is_enabled_node}
use hdg_bavaria_homeassistan.Entries.{
  node_unique_id, resolve_node_id_from_entity_entry, Notice, added, removed,
}
use hdg_bavaria_homeassistan.Entries.UniqueId.{not_colon, is_plain, resolve-node_unique_id}
use hdg_bavaria_homeassistan.Entries.Active.{
  active_after, after_notices, leads_to, group_requests_active_nodes,
}

-- a quoting that leaves colons out
without_colons : Text → Text
without_colons [] = []
without_colons (c ∷ s) = let rest = without_colons s in if c == b':' then rest else c ∷ rest

without_colons-not_colon : (s : Text) → all not_colon (without_colons s) ≡ true
unfolding without_colons
without_colons-not_colon [] = refl
without_colons-not_colon (c ∷ s) = ground (arith, without_colons-not_colon s)

without_colons-plain : (s : Text) → all is_plain s ≡ true → without_colons s ≡ s
unfolding without_colons
without_colons-plain [] h = refl
without_colons-plain (c ∷ s) h = ground (arith, without_colons-plain s)

abbrev step_text : SensorDefinition
step_text =
    create_sensor_definition (codes "19T") (codes "step_text") (codes "group_1") (codes "10")
      (codes "text")

abbrev two_definitions : Dict SensorDefinition
two_definitions =
    (codes "step_text", step_text)
    ∷ (
      codes "step",
      create_sensor_definition (codes "19T") (codes "step") (codes "group_1") (codes "10")
          (codes "int"),
    )
    ∷ []

resolve-node_unique_id_example :
    resolve_node_id_from_entity_entry
      (node_unique_id without_colons (codes "kessel:1") (codes "step_text"))
      two_definitions
    ≡ some (strip_hdg_node_suffix (codes "19T"))
unfolding lookup text_eq create_sensor_definition
resolve-node_unique_id_example =
    resolve-node_unique_id without_colons (codes "kessel:1") (codes "step_text") two_definitions
      step_text b'1' (codes "9T") (without_colons-not_colon, without_colons-plain) refl refl refl

abbrev one_group : Dict ℕ
one_group = (codes "group_1", 15) ∷ []

-- The entity of the text is removed after both were added.
abbrev three_notices : List (Notice × Text)
three_notices =
    (added true, codes "19") ∷ (added true, codes "19") ∷ (removed true, codes "19") ∷ []

group_requests_active_nodes_example :
    is_listed (codes "19T") (
      requested
        (get_optimized_payload
          (nodes_at (lookup (codes "group_1") (build_polling_groups one_group two_definitions)))
          (active_after two_definitions [] three_notices)).0)
    ≡ (any
          (λ item.
            text_eq item.1.polling_group (codes "group_1")
            && text_eq item.1.hdg_node_id (codes "19T"))
          two_definitions
        && after_notices (strip_hdg_node_suffix (codes "19T")) three_notices (
            any (leads_to (strip_hdg_node_suffix (codes "19T")) two_definitions) []
            || any
                (λ item. is_enabled_node (strip_hdg_node_suffix (codes "19T")) item.1)
                two_definitions))
unfolding lookup text_eq
group_requests_active_nodes_example =
    group_requests_active_nodes one_group two_definitions [] three_notices b'g' 15 b'1'
      (codes "roup_1") (codes "9T") refl
