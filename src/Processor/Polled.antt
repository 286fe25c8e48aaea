-- ===== src/Processor/Polled.antt =====
-- Which value a node holds after a poll:
-- custom_components/hdg_boiler/classes/polling_response_processor.py
use hdg_bavaria_homeassistan.Prelude.{
  ℕ, ◌≡◌, refl, ◌∙◌, Text, Bool, true, false, Option, none, some, List, [], ◌∷◌, arith, text_eq,
  text_eq_iff, if◌then◌else◌,
}
use hdg_bavaria_homeassistan.Prelude.Dict.{Dict, lookup, lookup-insert}
use hdg_bavaria_homeassistan.Models.{SensorDefinition}
use hdg_bavaria_homeassistan.Polling.{is_listed}
use hdg_bavaria_homeassistan.Optimistic.{Store, is_recently_set}
use hdg_bavaria_homeassistan.Processor.{
  NodeValues, ApiItem, value_of, usable_item, store_value, process_items, process_api_items,
  should_ignore_polled_value,
}

module _ {V : Type 0} (values : NodeValues V) where
  -- The value of the first usable item for the node, if there is one.
  abbrev first_for : Text → Option (Text × V) → Option V → Option V
  first_for k none rest = rest
  first_for k (some (n, v)) rest = if text_eq n k then some v else rest

  abbrev pub first_value : Dict SensorDefinition → Text → List (Option ApiItem) → Option V
  first_value index k [] = none
  first_value index k (item ∷ items) =
      first_for k (usable_item values index item) (first_value index k items)

  abbrev pub or_before : Option V → Option V → Option V
  or_before none before = before
  or_before (some v) before = some v

  -- one item, for a node that was not set of late
  stored :
      (recent : Text → Bool) (k : Text) (u : Option (Text × V)) (node_values : Dict V)
      (processed : List Text) (rest : Option V)
      → recent k ≡ false
      → (let s = store_value values recent u (node_values, processed) in
          if is_listed k s.1 then lookup k s.0 else or_before rest (lookup k s.0))
        ≡ (if is_listed k processed
            then lookup k node_values
            else or_before (first_for k u rest) (lookup k node_values))
  unfolding store_value is_listed should_ignore_polled_value
  stored recent k none node_values processed rest h = refl
  stored recent k (some (n, v)) node_values processed rest h =
      ground (arith, text_eq_iff n k, lookup-insert n k v node_values)

  lookup-process_items :
      (index : Dict SensorDefinition) (recent : Text → Bool) (k : Text)
      (items : List (Option ApiItem)) (node_values : Dict V) (processed : List Text)
      → recent k ≡ false
      → lookup k (process_items values index recent items (node_values, processed)).0 ≡ (
          if is_listed k processed
          then lookup k node_values
          else or_before (first_value index k items) (lookup k node_values))
  unfolding process_items is_listed
  lookup-process_items index recent k [] node_values processed h = ground arith
  lookup-process_items index recent k (item ∷ items) node_values processed h =
      let u = usable_item values index item in
      let s = store_value values recent u (node_values, processed) in
      lookup-process_items index recent k items s.0 s.1 h
      ∙ stored recent k u node_values processed (first_value index k items) h

  -- A node that was not set within the window holds, after all items of a poll, the parsed value
  -- of the first item that has an id, a text and a definition and whose base ID is that node, and
  -- the value it had before if there is no such item.
  pub first_polled_value_wins :
      (now window : ℕ) (index : Dict SensorDefinition) (optimistic : Store) (k : Text)
      (items : List (Option ApiItem)) (node_values : Dict V)
      → is_recently_set now k window optimistic ≡ false
      → lookup k (process_api_items values now window index optimistic items node_values)
        ≡ or_before (first_value index k items) (lookup k node_values)
  unfolding process_api_items is_listed
  first_polled_value_wins now window index optimistic k items node_values h =
      lookup-process_items index (λ j. is_recently_set now j window optimistic) k items node_values
        [] h

  -- one item, for a node that was set of late
  kept :
      (recent : Text → Bool) (k : Text) (u : Option (Text × V)) (node_values : Dict V)
      (processed : List Text)
      → ((v w : V) → values.same v w ≡ true → v ≡ w)
      → recent k ≡ true
      → value_of values (lookup k (store_value values recent u (node_values, processed)).0)
        ≡ value_of values (lookup k node_values)
  unfolding store_value should_ignore_polled_value
  kept recent k none node_values processed eq h = refl
  kept recent k (some (n, v)) node_values processed eq h = ground (
    arith,
    text_eq_iff n k,
    lookup-insert n k v node_values,
    eq (value_of values (lookup n node_values)) v,
  )

  kept_by_all :
      (index : Dict SensorDefinition) (recent : Text → Bool) (k : Text)
      (items : List (Option ApiItem)) (s : Dict V × List Text)
      → ((v w : V) → values.same v w ≡ true → v ≡ w)
      → recent k ≡ true
      → value_of values (lookup k (process_items values index recent items s).0)
        ≡ value_of values (lookup k s.0)
  unfolding process_items
  kept_by_all index recent k [] s eq h = refl
  kept_by_all index recent k (item ∷ items) s eq h =
      kept_by_all index recent k items (store_value values recent (usable_item values index item) s)
        eq h
      ∙ kept recent k (usable_item values index item) s.0 s.1 eq h

  -- Where only equal values compare as the same, a node that was set within the window has, after
  -- all items of a poll, the value it had before, a missing value being read as None.
  pub recent_set_is_kept :
      (now window : ℕ) (index : Dict SensorDefinition) (optimistic : Store) (k : Text)
      (items : List (Option ApiItem)) (node_values : Dict V)
      → ((v w : V) → values.same v w ≡ true → v ≡ w)
      → is_recently_set now k window optimistic ≡ true
      → value_of values
          (lookup k (process_api_items values now window index optimistic items node_values))
        ≡ value_of values (lookup k node_values)
  unfolding process_api_items
  recent_set_is_kept now window index optimistic k items node_values eq h =
      kept_by_all index (λ j. is_recently_set now j window optimistic) k items (node_values, []) eq
        h
