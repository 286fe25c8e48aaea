-- ===== src/Registry/Indexes.antt =====
-- What the registry's lookups find: custom_components/hdg_boiler/registry.py
use hdg_bavaria_homeassistan.Prelude.{
  ℕ, ◌≤◌, ◌≡◌, refl, Text, Bool, true, false, ◌&&◌, ◌||◌, Option, none, some, List, [], ◌∷◌, any,
  length, arith, text_eq, text_eq_iff, if◌then◌else◌,
}
use hdg_bavaria_homeassistan.Prelude.Dict.{Dict, lookup, lookup-insert}
use hdg_bavaria_homeassistan.NodeId.{strip_hdg_node_suffix}
use hdg_bavaria_homeassistan.Models.{SensorDefinition, truthy}
use hdg_bavaria_homeassistan.Polling.{is_listed}
use hdg_bavaria_homeassistan.Registry.{
  index_one, index_entities, entities_by_node_id, add_active, get_default_active_node_ids,
  active_nodes, active_payload, get_optimized_payload,
}

-- Does the definition have this node ID, which is not empty?
abbrev has_node : Text → Option Text → Bool
has_node n none = false
has_node n (some node_id) = text_eq node_id n

-- The last of the definitions with this node ID.
abbrev last_with : Text → Dict SensorDefinition → Option SensorDefinition
last_with n [] = none
last_with n ((key, definition) ∷ rest) = elim (last_with n rest) [
  | none ↦ if has_node n (truthy (some definition.hdg_node_id)) then some definition else none
  | some d ↦ some d
]

abbrev or_else : Option SensorDefinition → Option SensorDefinition → Option SensorDefinition
or_else none before = before
or_else (some d) before = some d

lookup-index_one :
    (n : Text) (o : Option Text) (d : SensorDefinition) (index : Dict SensorDefinition)
    → lookup n (index_one o d index) ≡ (if has_node n o then some d else lookup n index)
unfolding index_one
lookup-index_one n none d index = refl
lookup-index_one n (some node_id) d index = lookup-insert node_id n d index

lookup-index_entities :
    (n : Text) (definitions index : Dict SensorDefinition)
    → lookup n (index_entities definitions index)
      ≡ or_else (last_with n definitions) (lookup n index)
unfolding index_entities
lookup-index_entities n [] index = refl
lookup-index_entities n ((key, d) ∷ rest) index = ground (
  arith,
  lookup-index_entities n rest (index_one (truthy (some d.hdg_node_id)) d index),
  lookup-index_one n (truthy (some d.hdg_node_id)) d index,
)

-- The index by node ID finds the last of the definitions with that ID, and nothing for an ID that
-- no definition has or that is empty.
index_holds_last :
    (n : Text) (definitions : Dict SensorDefinition)
    → lookup n (entities_by_node_id definitions) ≡ last_with n definitions
unfolding entities_by_node_id lookup
index_holds_last n definitions = ground (arith, lookup-index_entities n definitions [])

-- Is this the base of the node ID of an enabled definition?
abbrev pub is_enabled_node : Text → SensorDefinition → Bool
is_enabled_node n d = d.entity_registry_enabled_default && elim (truthy (some d.hdg_node_id)) [
  | none ↦ false
  | some node_id ↦ text_eq (strip_hdg_node_suffix node_id) n
]

listed-add_active :
    (n : Text) (b : Bool) (o : Option Text) (result : List Text)
    → is_listed n (add_active b o result) ≡ (
        (b && elim o [ none ↦ false | some node_id ↦ text_eq (strip_hdg_node_suffix node_id) n ])
        || is_listed n result)
unfolding add_active is_listed
listed-add_active n false o result = refl
listed-add_active n true none result = refl
listed-add_active n true (some node_id) result =
    ground (arith, text_eq_iff (strip_hdg_node_suffix node_id) n)

-- A node is active by default exactly if it is the base of the node ID, not empty, of some
-- definition that is enabled by default.
pub listed-get_default_active_node_ids :
    (n : Text) (definitions : Dict SensorDefinition)
    → is_listed n (get_default_active_node_ids definitions)
      ≡ any (λ item. is_enabled_node n item.1) definitions
unfolding get_default_active_node_ids is_listed
listed-get_default_active_node_ids n [] = refl
listed-get_default_active_node_ids n ((key, d) ∷ rest) = ground (
  arith,
  listed-add_active n d.entity_registry_enabled_default (truthy (some d.hdg_node_id))
      (get_default_active_node_ids rest),
  listed-get_default_active_node_ids n rest,
)

listed-active_nodes :
    (n : Text) (active nodes : List Text)
    → is_listed n (active_nodes active nodes)
      ≡ (is_listed n nodes && is_listed (strip_hdg_node_suffix n) active)
unfolding active_nodes is_listed
listed-active_nodes n active [] = refl
listed-active_nodes n active (m ∷ nodes) =
    ground (arith, listed-active_nodes n active nodes, text_eq_iff m n)

-- The nodes to request, where no nodes are an empty list.
abbrev pub requested : Option (List Text) → List Text
requested none = []
requested (some nodes) = nodes

requested-active_payload :
    (nodes : List Text) (total : ℕ)
    → (requested (active_payload nodes total).0 ≡ nodes)
      × ((active_payload nodes total).1 ≡ length nodes)
      × ((active_payload nodes total).2 ≡ total)
unfolding active_payload
requested-active_payload [] total = (refl, refl, refl)
requested-active_payload (n ∷ nodes) total = (refl, refl, refl)

length-active_nodes : (active nodes : List Text) → length (active_nodes active nodes) ≤ length nodes
unfolding active_nodes
length-active_nodes active [] = omega arith
length-active_nodes active (m ∷ nodes) = ground (arith, length-active_nodes active nodes)

-- The optimized payload of a group asks for exactly the nodes of the group whose base is active,
-- its first count is their number, and that count is at most the number of nodes of the group.
pub optimized_payload_is_active :
    (nodes active : List Text)
    → ((n : Text)
        → is_listed n (requested (get_optimized_payload nodes active).0)
          ≡ (is_listed n nodes && is_listed (strip_hdg_node_suffix n) active))
      × ((get_optimized_payload nodes active).1
          ≡ length (requested (get_optimized_payload nodes active).0))
      × ((get_optimized_payload nodes active).1 ≤ (get_optimized_payload nodes active).2)
unfolding get_optimized_payload
optimized_payload_is_active nodes active =
    let (same, counted, whole) =
      requested-active_payload (active_nodes active nodes) (length nodes) in
    (
      λ n. rw same (listed-active_nodes n active nodes),
      rw (same, counted) refl,
      rw (counted, whole) (length-active_nodes active nodes),
    )
