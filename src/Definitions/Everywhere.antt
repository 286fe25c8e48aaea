-- ===== src/Definitions/Everywhere.antt =====
-- What holds of every definition of custom_components/hdg_boiler/definitions.py holds of every
-- definition that `get_sensor_definitions` gives.
use hdg_bavaria_homeassistan.Prelude.{
  ◌≡◌, refl, Text, codes, Bool, true, Option, none, some, [], ◌∷◌, Bool-cases, inl, inr, arith,
  both_true, ◌∙◌,
}
use hdg_bavaria_homeassistan.Prelude.Dict.{Dict, lookup, insert, all_items, insert-all_items}
use hdg_bavaria_homeassistan.Texts.{starts_with}
use hdg_bavaria_homeassistan.Models.{SensorDefinition}
use hdg_bavaria_homeassistan.Definitions.Base.{Items, polling_group_1}
use hdg_bavaria_homeassistan.Definitions.Factories.{create_temp_sensor}
use hdg_bavaria_homeassistan.Definitions.{
  sensor_items, sensor_definitions, put_all, tag_all, tag_by_prefix, prefix_group_map,
  get_sensor_definitions, add_each, add_puffer_mitte, puffer_node, puffer_mitte_node_map,
}

-- Where a test holds of each group of the map, or of every group, the tagging keeps it.
pub tag_by_prefix_passes :
    (p : Text → SensorDefinition → Bool) (map : Items Text) (k : Text) (d : SensorDefinition)
    → all_items (λ prefix group. p k (record d { component_group = some group })) map ≡ true
    → p k d ≡ true
    → p k (tag_by_prefix map k d) ≡ true
unfolding tag_by_prefix all_items
tag_by_prefix_passes p [] k d groups h = h
tag_by_prefix_passes p ((prefix, group) ∷ rest) k d groups h =
    let (first, others) = both_true _ _ groups in
    elim (Bool-cases (starts_with k prefix)) [
      | inl hit ↦ rw hit first
      | inr miss ↦ rw miss (tag_by_prefix_passes p rest k d others h)
    ]

all_items_const :
    (p : Text → Bool) (map : Items Text)
    → ((group : Text) → p group ≡ true)
    → all_items (λ prefix group. p group) map ≡ true
unfolding all_items
all_items_const p [] h = refl
all_items_const p ((prefix, group) ∷ rest) h = ground (arith, h group, all_items_const p rest h)

-- A test that does not look at the component group passes the tagging.
pub tag_ignored :
    (p : Text → SensorDefinition → Bool)
    → ((k group : Text) (d : SensorDefinition)
        → p k (record d { component_group = some group }) ≡ p k d)
    → (k : Text) (d : SensorDefinition) → p k d ≡ true
    → p k (tag_by_prefix prefix_group_map k d) ≡ true
tag_ignored p ignored k d h =
    tag_by_prefix_passes p prefix_group_map k d
      (all_items_const (λ group. p k (record d { component_group = some group })) prefix_group_map
        (λ group. ignored k group d ∙ h))
      h

-- A test of an item that passes the tagging and that every sensor of a puffer passes.
module _ (p : Text → SensorDefinition → Bool)
    (tag_passes : (k : Text) (d : SensorDefinition)
      → p k d ≡ true
      → p k (tag_by_prefix prefix_group_map k d) ≡ true)
    (puffer_passes : (key nid icon : Text)
      → p key (create_temp_sensor key nid polling_group_1 icon none true) ≡ true) where
  put_all_items :
      (items : Items SensorDefinition) (ds : Dict SensorDefinition)
      → all_items p items ≡ true
      → all_items p ds ≡ true
      → all_items p (put_all items ds) ≡ true
  unfolding all_items put_all
  put_all_items [] ds h hs = hs
  put_all_items ((k, d) ∷ items) ds h hs =
      put_all_items items (insert k d ds) (ground (arith, h))
        (insert-all_items p k d ds (ground (arith, h)) hs)

  tag_all_items :
      (ds : Items SensorDefinition) → all_items p ds ≡ true → all_items p (tag_all ds) ≡ true
  unfolding all_items tag_all
  tag_all_items [] h = refl
  tag_all_items ((k, d) ∷ ds) h =
      let (first, others) = both_true (p k d) (all_items p ds) h in
      ground (arith, tag_passes k d first, tag_all_items ds others)

  add_puffer_mitte_items :
      (key : Text) (nid : Option Text) (ds : Dict SensorDefinition)
      → all_items p ds ≡ true
      → all_items p (add_puffer_mitte key nid ds) ≡ true
  unfolding add_puffer_mitte
  add_puffer_mitte_items key none ds h = h
  add_puffer_mitte_items key (some nid) ds h =
      insert-all_items p key _ ds (puffer_passes key nid (codes "mdi:coolant-temperature")) h

  add_each_items :
      (map : Items Text) (opts : Dict Text) (ds : Dict SensorDefinition)
      → all_items p ds ≡ true
      → all_items p (add_each map opts ds) ≡ true
  unfolding add_each
  add_each_items [] opts ds h = h
  add_each_items ((key, conf) ∷ rest) opts ds h =
      add_each_items rest opts (add_puffer_mitte key (puffer_node (lookup conf opts)) ds)
        (add_puffer_mitte_items key (puffer_node (lookup conf opts)) ds h)

  pub all_definitions :
      (opts : Dict Text)
      → all_items p sensor_items ≡ true
      → all_items p (get_sensor_definitions opts) ≡ true
  unfolding get_sensor_definitions sensor_definitions all_items
  all_definitions opts h =
      add_each_items puffer_mitte_node_map opts sensor_definitions
        (tag_all_items (put_all sensor_items []) (put_all_items sensor_items [] h refl))
