-- ===== src/Platforms.antt =====
-- The entities of the platforms: custom_components/hdg_boiler/helpers/entity_utils.py, the counters
-- of custom_components/hdg_boiler/registry.py, and custom_components/hdg_boiler/button.py. The
-- platforms are set up in the order of PLATFORMS.
mod Examples
pub mod Shared
pub mod Added
use hdg_bavaria_homeassistan.Prelude.{
  ℕ, ◌+◌, Text, codes, Bool, true, false, Option, none, some, List, [], ◌∷◌, ◌++◌, length, text_eq,
  if◌then◌else◌,
}
use hdg_bavaria_homeassistan.Prelude.Dict.{Dict, lookup, insert}
use hdg_bavaria_homeassistan.Models.{
  ℤ, pos, SensorDefinition, DeviceClass, StateClass, EntityCategory, HaUnit,
}
use hdg_bavaria_homeassistan.Registry.{get_entities_for_platform}

-- what only one platform's description has; numbers count tenths
pub data DescriptionKind : Type 0 where
  sensor_kind : Option StateClass → DescriptionKind
  number_kind : (minimum maximum : Option ℤ) → (step : Option ℤ) → DescriptionKind
  select_kind : List Text → DescriptionKind

-- A field that is `none` is not passed to the description. Its translation key is its key, and the
-- mode of a number is a box.
pub record EntityDescription : Type 0 where
  pub key : Text
  pub icon : Option Text
  pub device_class : Option DeviceClass
  pub native_unit_of_measurement : Option HaUnit
  pub entity_category : Option EntityCategory
  pub kind : DescriptionKind

pub step_or_one : Option ℤ → ℤ
step_or_one none = pos 10
step_or_one (some step) = step

pub options_or_none : Option (List Text) → List Text
options_or_none none = []
options_or_none (some options) = options

pub kind_for : Text → SensorDefinition → Option DescriptionKind
unfolding text_eq step_or_one options_or_none
kind_for platform d =
    if text_eq platform (codes "sensor")
    then some (sensor_kind d.ha_state_class)
    else if text_eq platform (codes "number")
    then some (number_kind d.setter_min_val d.setter_max_val (some (step_or_one d.setter_step)))
    else if text_eq platform (codes "select")
    then some (select_kind (options_or_none d.options))
    else none

-- `create_entity_description`; `none` is the ValueError
pub create_entity_description : Text → Text → SensorDefinition → Option EntityDescription
unfolding kind_for
create_entity_description platform translation_key d = elim (kind_for platform d) [
  | none ↦ none
  | some kind ↦ some (record {
    key = translation_key;
    icon = d.icon;
    device_class = d.ha_device_class;
    native_unit_of_measurement = d.ha_native_unit_of_measurement;
    entity_category = d.entity_category;
    kind = kind;
  })
]

pub data Entity : Type 0 where
  poll_everything_button : Entity
  node_entity : EntityDescription → SensorDefinition → Entity

-- the entities of `async_setup_hdg_platform`
pub prepend_entity :
    Option EntityDescription → SensorDefinition → Option (List Entity) → Option (List Entity)
prepend_entity (some description) d (some entities) = some (node_entity description d ∷ entities)
prepend_entity (some description) d none = none
prepend_entity none d entities = none

pub described : Text → Dict SensorDefinition → Option (List Entity)
unfolding create_entity_description prepend_entity
described platform [] = some []
described platform ((key, d) ∷ rest) =
    prepend_entity (create_entity_description platform key d) d (described platform rest)

-- `_added_entity_counts`
abbrev pub no_entities : Dict ℕ
no_entities = (codes "sensor", 0) ∷ (codes "number", 0) ∷ (codes "select", 0) ∷ []

-- `increment_added_entity_count`
pub increased : Text → ℕ → Option ℕ → Dict ℕ → Dict ℕ
unfolding insert
increased platform count none counts = counts
increased platform count (some n) counts = insert platform (n + count) counts

pub increment_added_entity_count : Text → ℕ → Dict ℕ → Dict ℕ
unfolding increased lookup
increment_added_entity_count platform count counts =
    increased platform count (lookup platform counts) counts

-- `get_total_added_entities`
pub total_added_entities : Dict ℕ → ℕ
total_added_entities [] = 0
total_added_entities ((platform, n) ∷ counts) = n + total_added_entities counts

pub add_entities : Text → List Entity → Dict ℕ → Dict ℕ
unfolding increment_added_entity_count
add_entities platform [] counts = counts
add_entities platform (e ∷ es) counts =
    increment_added_entity_count platform (length (e ∷ es)) counts

-- `async_setup_hdg_platform`
pub set_up_platform :
    Text → Dict SensorDefinition → List Entity × Dict ℕ → Option (List Entity × Dict ℕ)
unfolding described add_entities get_entities_for_platform
set_up_platform platform definitions (added, counts) =
    elim (described platform (get_entities_for_platform platform definitions)) [
      | none ↦ none
      | some entities ↦ some (added ++ entities, add_entities platform entities counts)
    ]

pub set_up_each :
    List Text
    → Dict SensorDefinition
    → Option (List Entity × Dict ℕ)
    → Option (List Entity × Dict ℕ)
unfolding set_up_platform
set_up_each platforms definitions none = none
set_up_each [] definitions (some done) = some done
set_up_each (platform ∷ platforms) definitions (some done) =
    set_up_each platforms definitions (set_up_platform platform definitions done)

-- PLATFORMS, after the button
pub set_up_platforms : Dict SensorDefinition → Option (List Entity × Dict ℕ)
unfolding set_up_each
set_up_platforms definitions =
    set_up_each (codes "sensor" ∷ codes "number" ∷ codes "select" ∷ []) definitions
      (some (poll_everything_button ∷ [], no_entities))
