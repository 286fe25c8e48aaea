-- ===== src/Registry/Groups.antt =====
-- The polling groups of custom_components/hdg_boiler/registry.py: `_get_valid_sorted_sensor_defs`,
-- `_create_node_group_payload`, `_process_polling_group` and `_build_polling_groups`. `sorted` is
-- stable and compares texts by code points; the display name of a group is left out.
pub mod Sorting
pub mod Partition
pub mod Contents
use hdg_bavaria_homeassistan.Prelude.{
  ℕ, ◌+◌, Text, codes, Bool, true, false, not, ◌&&◌, ◌||◌, Option, none, some, List, [], ◌∷◌, ◌++◌,
  ltb, ◌==◌, any, text_eq, if◌then◌else◌,
}
use hdg_bavaria_homeassistan.Prelude.Dict.{Dict, lookup, insert}
use hdg_bavaria_homeassistan.Models.{SensorDefinition, truthy}

-- `NodeGroupPayload`
pub record NodeGroupPayload : Type 0 where
  pub key : Text
  pub nodes : List Text
  pub default_scan_interval : ℕ

-- `s < t` for texts
pub text_lt : Text → Text → Bool
text_lt s [] = false
text_lt [] (d ∷ t) = true
text_lt (c ∷ s) (d ∷ t) = ltb c d || (c == d && text_lt s t)

is_filled : Option Text → Bool
is_filled none = false
is_filled (some t) = true

-- the definitions with a node ID in a group that exists
pub is_valid : Dict ℕ → SensorDefinition → Bool
unfolding is_filled text_eq
is_valid groups d =
    any (λ g. text_eq g.0 d.polling_group) groups && is_filled (truthy (some d.hdg_node_id))

pub valid_defs : Dict ℕ → Dict SensorDefinition → List SensorDefinition
unfolding is_valid
valid_defs groups [] = []
valid_defs groups ((key, d) ∷ rest) =
    let more = valid_defs groups rest in if is_valid groups d then d ∷ more else more

-- `sorted(…, key=polling_group)`
pub insert_by_group : SensorDefinition → List SensorDefinition → List SensorDefinition
unfolding text_lt
insert_by_group d [] = d ∷ []
insert_by_group d (e ∷ ds) =
    if text_lt e.polling_group d.polling_group then e ∷ insert_by_group d ds else d ∷ e ∷ ds

pub sort_by_group : List SensorDefinition → List SensorDefinition
unfolding insert_by_group
sort_by_group [] = []
sort_by_group (d ∷ ds) = insert_by_group d (sort_by_group ds)

-- `groupby`: the first run of definitions that have the same group, and the others
pub put_in_run :
    SensorDefinition → List (Text × List SensorDefinition) → List (Text × List SensorDefinition)
unfolding text_eq
put_in_run d [] = (d.polling_group, d ∷ []) ∷ []
put_in_run d ((g, ds) ∷ runs) =
    if text_eq g d.polling_group
    then (g, d ∷ ds) ∷ runs
    else (d.polling_group, d ∷ []) ∷ (g, ds) ∷ runs

pub group_by : List SensorDefinition → List (Text × List SensorDefinition)
unfolding put_in_run
group_by [] = []
group_by (d ∷ ds) = put_in_run d (group_by ds)

-- `sorted({…})` of the node IDs
pub insert_node : Text → List Text → List Text
unfolding text_lt text_eq
insert_node n [] = n ∷ []
insert_node n (k ∷ nodes) =
    if text_eq n k
    then k ∷ nodes
    else if text_lt n k
    then n ∷ k ∷ nodes
    else k ∷ insert_node n nodes

pub nodes_of : List SensorDefinition → List Text
unfolding insert_node
nodes_of [] = []
nodes_of (d ∷ ds) = insert_node d.hdg_node_id (nodes_of ds)

-- `_create_node_group_payload` and the end of `_process_polling_group`
pub add_payload : Text → List Text → Option ℕ → Dict NodeGroupPayload → Dict NodeGroupPayload
add_payload key nodes none payloads = payloads
add_payload key nodes (some interval) payloads =
    insert key (record { key = key; nodes = nodes; default_scan_interval = interval }) payloads

pub process_polling_group :
    Dict ℕ → Text → List Text → Dict NodeGroupPayload → Dict NodeGroupPayload
unfolding add_payload lookup
process_polling_group groups [] nodes payloads = payloads
process_polling_group groups (c ∷ key) [] payloads = payloads
process_polling_group groups (c ∷ key) (n ∷ nodes) payloads =
    add_payload (c ∷ key) (n ∷ nodes) (lookup (c ∷ key) groups) payloads

pub process_runs :
    Dict ℕ → List (Text × List SensorDefinition) → Dict NodeGroupPayload → Dict NodeGroupPayload
unfolding process_polling_group nodes_of
process_runs groups [] payloads = payloads
process_runs groups ((g, ds) ∷ runs) payloads =
    process_runs groups runs (process_polling_group groups g (nodes_of ds) payloads)

-- `_build_polling_groups`
pub build_polling_groups : Dict ℕ → Dict SensorDefinition → Dict NodeGroupPayload
unfolding process_runs group_by sort_by_group valid_defs
build_polling_groups groups definitions =
    process_runs groups (group_by (sort_by_group (valid_defs groups definitions))) []
