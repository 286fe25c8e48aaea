-- ===== src/Definitions/Catalogue.antt =====
-- What holds of every definition that `get_sensor_definitions` of
-- custom_components/hdg_boiler/definitions.py gives, whatever the options are.
use hdg_bavaria_homeassistan.Prelude.{
  ◌≡◌, refl, Text, codes, Bool, true, false, not, ◌&&◌, Option, none, some, any, ltb, text_eq,
  text_eq_refl,
}
use hdg_bavaria_homeassistan.Prelude.Dict.{Dict, all_items}
use hdg_bavaria_homeassistan.Models.{SensorDefinition, ℤ, pos, negsuc}
use hdg_bavaria_homeassistan.Definitions.Base.{Items, polling_group_definitions, polling_group_1}
use hdg_bavaria_homeassistan.Definitions.Factories.{create_temp_sensor}
use hdg_bavaria_homeassistan.Definitions.Everywhere.{all_definitions, tag_ignored}
use hdg_bavaria_homeassistan.Definitions.{sensor_items, get_sensor_definitions}

-- `x < y` for the numbers of a setter
ltb_setter : ℤ → ℤ → Bool
ltb_setter (pos a) (pos b) = ltb a b
ltb_setter (pos a) (negsuc b) = false
ltb_setter (negsuc a) (pos b) = true
ltb_setter (negsuc a) (negsuc b) = ltb b a

-- A definition with a setter has bounds in order and a step above zero.
has_range : Option Text → Option ℤ → Option ℤ → Option ℤ → Bool
has_range none lo hi step = true
has_range (some t) (some lo) (some hi) (some step) = ltb_setter lo hi && ltb_setter (pos 0) step
has_range (some t) _ _ _ = false

is_none : {A : Type 0} → Option A → Bool
is_none none = true
is_none (some a) = false

same : Bool → Bool → Bool
same true b = b
same false b = not b

-- The checks on the item of a key: it polls in a group that exists, it is known by its own key,
-- exactly the numbers have a setter and exactly the selects have options, and no other is writable.
pub is_sound : Text → SensorDefinition → Bool
unfolding has_range is_none ltb_setter same text_eq
is_sound key d =
    any (λ g. text_eq g.0 d.polling_group) polling_group_definitions
    && text_eq d.translation_key key
    && same (text_eq d.ha_platform (codes "number")) (not (is_none d.setter_type))
    && same (text_eq d.ha_platform (codes "select")) (not (is_none d.options))
    && same (not (text_eq d.ha_platform (codes "sensor"))) d.writable
    && has_range d.setter_type d.setter_min_val d.setter_max_val d.setter_step

abbrev all_sound : Items SensorDefinition → Bool
all_sound = all_items is_sound

items_sound : all_sound sensor_items ≡ true
unfolding all_items is_sound sensor_items
items_sound = refl

group_ignored :
    (k group : Text) (d : SensorDefinition)
    → is_sound k (record d { component_group = some group }) ≡ is_sound k d
unfolding is_sound
group_ignored k group d = refl

puffer_sound :
    (key nid icon : Text)
    → is_sound key (create_temp_sensor key nid polling_group_1 icon none true) ≡ true
unfolding is_sound create_temp_sensor
puffer_sound key nid icon = rw (text_eq_refl key) refl

-- Whatever the options, every definition that the integration gets polls in a group that exists,
-- has its own key as translation key, has a setter exactly if it is a number and options exactly
-- if it is a select, is writable exactly if it is no sensor, and if it has a setter then its
-- minimum is below its maximum and its step is above zero.
pub catalogue_is_sound :
    (opts : Dict Text) → all_items is_sound (get_sensor_definitions opts) ≡ true
catalogue_is_sound opts =
    all_definitions is_sound (tag_ignored is_sound group_ignored) puffer_sound opts items_sound
