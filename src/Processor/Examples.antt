-- ===== src/Processor/Examples.antt =====
-- A poll of one node: custom_components/hdg_boiler/classes/polling_response_processor.py
use hdg_bavaria_homeassistan.Prelude.{
  ◌≡◌, refl, Text, codes, text_eq, text_eq_iff, Option, some, List, [], ◌∷◌,
}
use hdg_bavaria_homeassistan.Prelude.Dict.{Dict, lookup}
use hdg_bavaria_homeassistan.Models.{SensorDefinition}
use hdg_bavaria_homeassistan.Optimistic.{Store, is_recently_set}
use hdg_bavaria_homeassistan.Definitions.Base.{create_sensor_definition, polling_group_4}
use hdg_bavaria_homeassistan.Processor.{NodeValues, ApiItem, value_of, process_api_items}
use hdg_bavaria_homeassistan.Processor.Polled.{
  or_before, first_value, first_polled_value_wins, recent_set_is_kept,
}

-- Values are texts, and the parser keeps the text as it is.
abbrev raw_texts : NodeValues Text
raw_texts = record {
  parse_sensor_value = λ raw definition. raw;
  hundredth = λ v. v;
  nothing = [];
  same = text_eq;
}

abbrev index : Dict SensorDefinition
index =
    (
      codes "6022T",
      create_sensor_definition (codes "6022T") (codes "hk1_soll_normal") polling_group_4 (codes "2")
          (codes "float"),
    )
    ∷ []

abbrev polled : List (Option ApiItem)
polled =
    some (record { id = codes "6022T"; text = some (codes "20") })
    ∷ some (record { id = codes "6022"; text = some (codes "19") })
    ∷ []

abbrev set_of_late : Store
set_of_late = (codes "6022", record { value = codes "21"; set_time = 1000; grace = 30_000 }) ∷ []

first_polled_value_wins_example :
    lookup (codes "6022") (process_api_items raw_texts 2000 10_000 index [] polled [])
    ≡ or_before raw_texts
        (first_value raw_texts index (codes "6022") polled)
        (lookup (codes "6022") [])
unfolding is_recently_set lookup
first_polled_value_wins_example =
    first_polled_value_wins raw_texts 2000 10_000 index [] (codes "6022") polled [] refl

recent_set_is_kept_example :
    value_of raw_texts (
      lookup (codes "6022") (
        process_api_items raw_texts 2000 10_000 index set_of_late polled
          ((codes "6022", codes "21") ∷ [])))
    ≡ value_of raw_texts (lookup (codes "6022") ((codes "6022", codes "21") ∷ []))
unfolding is_recently_set lookup text_eq
recent_set_is_kept_example =
    recent_set_is_kept raw_texts 2000 10_000 index set_of_late (codes "6022") polled
      ((codes "6022", codes "21") ∷ []) (λ v w. (text_eq_iff v w).0) refl
