-- ===== src/Platforms/Added.antt =====
-- Which entities the platforms add: custom_components/hdg_boiler/helpers/entity_utils.py with
-- custom_components/hdg_boiler/definitions.py
use hdg_bavaria_homeassistan.Prelude.{
  ℕ, suc, ◌≡◌, refl, ap, ◌∙◌, Text, codes, Bool, true, ◌||◌, none, some, List, [], ◌∷◌, ◌++◌, any,
  length, arith, text_eq,
}
use hdg_bavaria_homeassistan.Prelude.Dict.{Dict, lookup, all_items}
use hdg_bavaria_homeassistan.Models.{SensorDefinition}
use hdg_bavaria_homeassistan.Registry.{get_entities_for_platform}
use hdg_bavaria_homeassistan.Definitions.Base.{polling_group_1}
use hdg_bavaria_homeassistan.Definitions.Factories.{create_temp_sensor}
use hdg_bavaria_homeassistan.Definitions.Everywhere.{all_definitions, tag_ignored}
use hdg_bavaria_homeassistan.Definitions.{sensor_items, get_sensor_definitions}
use hdg_bavaria_homeassistan.Platforms.{
  EntityDescription, Entity, poll_everything_button, node_entity, sensor_kind, number_kind,
  select_kind, step_or_one, options_or_none, described, create_entity_description, kind_for,
  DescriptionKind, prepend_entity, set_up_platform, set_up_each, set_up_platforms, no_entities,
  total_added_entities, add_entities,
}
use hdg_bavaria_homeassistan.Platforms.Shared.{on_platform, has_key, none_lost, total_three}

items_on_platform : all_items on_platform sensor_items ≡ true
unfolding all_items on_platform sensor_items
items_on_platform = refl

group_kept :
    (k group : Text) (d : SensorDefinition)
    → on_platform k (record d { component_group = some group }) ≡ on_platform k d
unfolding on_platform
group_kept k group d = refl

puffer_on_platform :
    (key nid icon : Text)
    → on_platform key (create_temp_sensor key nid polling_group_1 icon none true) ≡ true
unfolding on_platform create_temp_sensor
puffer_on_platform key nid icon = refl

-- The keys under which entities are added.
abbrev entity_key_of : Entity → Text
entity_key_of poll_everything_button = codes "poll_everything"
entity_key_of (node_entity description d) = description.key

abbrev pub adds : Text → List Entity → Bool
adds key es = any (λ e. text_eq (entity_key_of e) key) es

module _ (platform : Text) (kind : SensorDefinition → DescriptionKind)
    (has_kind : (d : SensorDefinition) → kind_for platform d ≡ some (kind d)) where
  abbrev Describes : Dict SensorDefinition → List Entity → Type 0
  Describes ds es =
      (described platform ds ≡ some es)
      × (length es ≡ length ds)
      × ((key : Text) → adds key es ≡ any (λ item. text_eq item.0 key) ds)

  described_as : Text → SensorDefinition → EntityDescription
  described_as k d = record {
    key = k;
    icon = d.icon;
    device_class = d.ha_device_class;
    native_unit_of_measurement = d.ha_native_unit_of_measurement;
    entity_category = d.entity_category;
    kind = kind d;
  }

  create-described_as :
      (k : Text) (d : SensorDefinition)
      → create_entity_description platform k d ≡ some (described_as k d)
  unfolding create_entity_description described_as
  create-described_as k d = rw (has_kind d, create_entity_description) refl

  all_described : (ds : Dict SensorDefinition) → (es : List Entity) × Describes ds es
  unfolding described prepend_entity described_as
  all_described [] = ([], (refl, refl, λ key. refl))
  all_described ((k, d) ∷ ds) =
      let (es, (made, len, known)) = all_described ds in
      (
        node_entity (described_as k d) d ∷ es,
        (
          ap (λ o. prepend_entity o d (described platform ds)) (create-described_as k d)
              ∙ ap (λ o. prepend_entity (some (described_as k d)) d o) made,
          ap suc len,
          λ key. ap (λ b. text_eq k key || b) (known key),
        ),
      )

adds-append :
    (key : Text) (es fs : List Entity) → adds key (es ++ fs) ≡ (adds key es || adds key fs)
adds-append key [] fs = refl
adds-append key (e ∷ es) fs = ground (arith, adds-append key es fs)

-- One platform: what it adds and counts.
set_up_platform_lem :
    (platform : Text) (kind : SensorDefinition → DescriptionKind)
    (has_kind : (d : SensorDefinition) → kind_for platform d ≡ some (kind d))
    (ds : Dict SensorDefinition) (added : List Entity) (counts : Dict ℕ)
    → (es : List Entity) × (set_up_platform platform ds (added, counts)
        ≡ some (added ++ es, add_entities platform es counts))
      × (length es ≡ length (get_entities_for_platform platform ds))
      × ((key : Text) → adds key es ≡ has_key key (get_entities_for_platform platform ds))
unfolding set_up_platform has_key
set_up_platform_lem platform kind has_kind ds added counts =
    let (es, (made, len, known)) =
      all_described platform kind has_kind (get_entities_for_platform platform ds) in
    (es, rw (made, set_up_platform) refl, len, known)

adds_three :
    (key : Text) (ds : Dict SensorDefinition) (a b c : List Entity)
    → all_items on_platform ds ≡ true
    → adds key a ≡ has_key key (get_entities_for_platform (codes "sensor") ds)
    → adds key b ≡ has_key key (get_entities_for_platform (codes "number") ds)
    → adds key c ≡ has_key key (get_entities_for_platform (codes "select") ds)
    → has_key key ds ≡ true
    → adds key (((poll_everything_button ∷ a) ++ b) ++ c) ≡ true
adds_three key ds a b c h ka kb kc there = ground (
  arith,
  adds-append key ((poll_everything_button ∷ a) ++ b) c,
  adds-append key (poll_everything_button ∷ a) b,
  none_lost key ds h,
  ka,
  kb,
  kc,
  there,
)

lookup-has_key :
    (key : Text) (ds : Dict SensorDefinition) (d : SensorDefinition)
    → lookup key ds ≡ some d
    → has_key key ds ≡ true
unfolding lookup has_key
lookup-has_key key [] d h = absurd (cc)
lookup-has_key key ((k, e) ∷ ds) d h = ground (arith, lookup-has_key key ds d, h)

-- Whatever the options of the integration, the set-up of the platforms never raises the
-- ValueError of an unsupported platform, the counters of added entities add up to the number of
-- definitions, and each definition gets an entity under its key.
pub every_definition_is_added :
    (opts : Dict Text) (key : Text) (d : SensorDefinition)
    → lookup key (get_sensor_definitions opts) ≡ some d
    → (es : List Entity) × (counts : Dict ℕ) × (set_up_platforms (get_sensor_definitions opts)
        ≡ some (es, counts))
      × (total_added_entities counts ≡ length (get_sensor_definitions opts))
      × (adds key es ≡ true)
unfolding set_up_platforms set_up_each kind_for
every_definition_is_added opts key d found =
    let ds = get_sensor_definitions opts in
    let h =
      all_definitions on_platform (tag_ignored on_platform group_kept) puffer_on_platform opts
        items_on_platform in
    let (a, made_a, len_a, known_a) =
      set_up_platform_lem (codes "sensor") (λ d. sensor_kind d.ha_state_class) (λ d. refl) ds
        (poll_everything_button ∷ []) no_entities in
    let counts_a = add_entities (codes "sensor") a no_entities in
    let (b, made_b, len_b, known_b) =
      set_up_platform_lem (codes "number")
        (λ d. number_kind d.setter_min_val d.setter_max_val (some (step_or_one d.setter_step)))
        (λ d. refl) ds (poll_everything_button ∷ a) counts_a in
    let counts_b = add_entities (codes "number") b counts_a in
    let (c, made_c, len_c, known_c) =
      set_up_platform_lem (codes "select") (λ d. select_kind (options_or_none d.options))
        (λ d. refl) ds ((poll_everything_button ∷ a) ++ b) counts_b in
    (
      ((poll_everything_button ∷ a) ++ b) ++ c,
      add_entities (codes "select") c counts_b,
      ap (set_up_each (codes "number" ∷ codes "select" ∷ []) ds) made_a
          ∙ ap (set_up_each (codes "select" ∷ []) ds) made_b
          ∙ ap (set_up_each [] ds) made_c,
      total_three ds a b c h len_a len_b len_c,
      adds_three key ds a b c h (known_a key) (known_b key) (known_c key)
          (lookup-has_key key ds d found),
    )
