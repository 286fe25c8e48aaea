-- ===== src/Processor.antt =====
-- custom_components/hdg_boiler/classes/polling_response_processor.py: what the items of a polled
-- group do to the node values. A value has the type `V`; what the parsers make of a text, the
-- division of a number by 100, the comparison of values and `None` are an interface.
mod Examples
pub mod Polled
use hdg_bavaria_homeassistan.Prelude.{
  ℕ, Text, codes, Bool, true, false, not, ◌&&◌, Option, none, some, List, [], ◌∷◌, ◌++◌, text_eq,
  if◌then◌else◌,
}
use hdg_bavaria_homeassistan.Prelude.Dict.{Dict, lookup, insert}
use hdg_bavaria_homeassistan.Texts.{strip, ends_with}
use hdg_bavaria_homeassistan.NodeId.{strip_hdg_node_suffix}
use hdg_bavaria_homeassistan.Models.{SensorDefinition}
use hdg_bavaria_homeassistan.Polling.{is_listed}
use hdg_bavaria_homeassistan.Optimistic.{Store, is_recently_set}

-- What the processor asks of the values.
pub record NodeValues (V : Type 0) : Type 0 where
  -- `parse_sensor_value`
  pub parse_sensor_value : Text → SensorDefinition → V
  -- `v / 100.0` for a number, and `v` for any other value
  pub hundredth : V → V
  -- `None`
  pub nothing : V
  -- `==`
  pub same : V → V → Bool

-- An item: `id` is `str(item.get("id", ""))`, `text` is `str` of a text that is there. An item that
-- is not a dictionary is `none`.
pub record ApiItem : Type 0 where
  pub id : Text
  pub text : Option Text

-- `_get_entity_definition`, on the registry's index by node ID
get_entity_definition : Dict SensorDefinition → Text → Option SensorDefinition
unfolding ends_with lookup
get_entity_definition index node_id =
    lookup (if ends_with node_id (codes "T") then node_id else node_id ++ codes "T") index

is_it : Option Text → Bool
unfolding text_eq
is_it none = false
is_it (some formatter) = text_eq formatter (codes "iT")

module _ {V : Type 0} (values : NodeValues V) where
  -- `parse_sensor_value`, then the tonnes of the formatter iT
  parsed_value : Text → SensorDefinition → V
  unfolding is_it
  parsed_value raw definition =
      let v = values.parse_sensor_value raw definition in
      if is_it definition.hdg_formatter then values.hundredth v else v

  -- `data.get(node_id)`
  pub value_of : Option V → V
  value_of none = values.nothing
  value_of (some v) = v

  -- The steps of `_process_single_item` up to the two guards: the node and its value.
  usable : Dict SensorDefinition → Text → Option Text → Option (Text × V)
  unfolding parsed_value get_entity_definition strip_hdg_node_suffix
  usable index [] text = none
  usable index (c ∷ api_id) none = none
  usable index (c ∷ api_id) (some raw) = elim (get_entity_definition index (c ∷ api_id)) [
    | none ↦ none
    | some definition ↦ some (strip_hdg_node_suffix (c ∷ api_id), parsed_value raw definition)
  ]

  -- `_should_ignore_polled_value`, where `recent` says whether the node was set of late
  pub should_ignore_polled_value : Bool → Option V → V → Bool
  unfolding value_of
  should_ignore_polled_value recent current parsed =
      recent && not (values.same (value_of current) parsed)

  -- the node values, and the nodes already processed in this call
  store_value : (Text → Bool) → Option (Text × V) → Dict V × List Text → Dict V × List Text
  unfolding should_ignore_polled_value is_listed
  store_value recent none (node_values, processed) = (node_values, processed)
  store_value recent (some (node_id, v)) (node_values, processed) =
      if should_ignore_polled_value (recent node_id) (lookup node_id node_values) v
      then (node_values, processed)
      else if is_listed node_id processed
      then (node_values, processed)
      else (insert node_id v node_values, node_id ∷ processed)

  pub usable_item : Dict SensorDefinition → Option ApiItem → Option (Text × V)
  unfolding usable strip
  usable_item index none = none
  usable_item index (some item) = usable index (strip item.id) item.text

  -- the loop of `process_api_items`
  process_items :
      Dict SensorDefinition
      → (Text → Bool)
      → List (Option ApiItem)
      → Dict V × List Text
      → Dict V × List Text
  unfolding store_value usable_item
  process_items index recent [] s = s
  process_items index recent (item ∷ items) s =
      process_items index recent items (store_value recent (usable_item index item) s)

  -- `process_api_items` at the time `now`, with the window of the options in milliseconds
  pub process_api_items :
      ℕ → ℕ → Dict SensorDefinition → Store → List (Option ApiItem) → Dict V → Dict V
  unfolding process_items is_recently_set
  process_api_items now window index optimistic items node_values =
      (process_items index (λ k. is_recently_set now k window optimistic) items (node_values, [])).0
