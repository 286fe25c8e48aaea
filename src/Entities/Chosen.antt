-- ===== src/Entities/Chosen.antt =====
-- The options of the selects of custom_components/hdg_boiler/definitions.py: what is sent for one
-- comes back as that option.
use mathlib.Core.Path.{subst}
use hdg_bavaria_homeassistan.Prelude.{
  three_true, if_then, ◌≡◌, refl, ap, Text, codes, Bool, true, false, not, ◌&&◌, Option, none, some,
  List, all, all_cons, [], ◌∷◌, arith, Bool-cases, inl, inr, text_eq, text_eq_iff, if◌then◌else◌,
}
use hdg_bavaria_homeassistan.Prelude.Dict.{Dict, lookup, all_items, all_items-lookup}
use hdg_bavaria_homeassistan.Models.{SensorDefinition}
use hdg_bavaria_homeassistan.Texts.{strip, lower_text, upper_text}
use hdg_bavaria_homeassistan.Polling.{is_listed}
use hdg_bavaria_homeassistan.Definitions.{sensor_items, get_sensor_definitions}
use hdg_bavaria_homeassistan.Definitions.Everywhere.{all_definitions, tag_ignored}
use hdg_bavaria_homeassistan.Definitions.Base.{polling_group_1}
use hdg_bavaria_homeassistan.Definitions.Factories.{create_temp_sensor}
use hdg_bavaria_homeassistan.Enumerations.{resolve_hdg_enum_key}
use hdg_bavaria_homeassistan.Parsers.Extract.{has}
use hdg_bavaria_homeassistan.Entities.{
  hdg_unavailable_strings, options_of, resolved_option, table_for,
}

-- Does what is sent for an option come back as that option?
abbrev returns_as : Text → Text → Bool
returns_as key o =
    text_eq (strip (upper_text o)) (upper_text o)
    && not (has b'&' (upper_text o))
    && not (is_listed (strip (lower_text (upper_text o))) hdg_unavailable_strings)
    && text_eq (lower_text (upper_text o)) o
    && text_eq (lower_text (resolved_option (table_for key) (upper_text o))) o

abbrev is_capital : Option Bool → Bool
is_capital none = false
is_capital (some b) = b

is_good_select : Text → SensorDefinition → Bool
is_good_select key d =
    if text_eq d.ha_platform (codes "select")
    then is_capital d.uppercase_value
      && text_eq d.parse_as_type (codes "text")
      && all (returns_as d.translation_key) (options_of d)
    else true

items_good : all_items is_good_select sensor_items ≡ true
unfolding all_items is_good_select sensor_items resolved_option table_for options_of is_listed strip
    lower_text upper_text has text_eq resolve_hdg_enum_key lookup
items_good = refl

group_kept :
    (k group : Text) (d : SensorDefinition)
    → is_good_select k (record d { component_group = some group }) ≡ is_good_select k d
unfolding is_good_select options_of
group_kept k group d = refl

puffer_good :
    (key nid icon : Text)
    → is_good_select key (create_temp_sensor key nid polling_group_1 icon none true) ≡ true
unfolding is_good_select create_temp_sensor text_eq
puffer_good key nid icon = refl

all-is_listed :
    (p : Text → Bool) (o : Text) (xs : List Text)
    → all p xs ≡ true
    → is_listed o xs ≡ true
    → p o ≡ true
unfolding is_listed
all-is_listed p o [] h k = absurd (cc)
all-is_listed p o (x ∷ xs) h k = elim (Bool-cases (text_eq x o)) [
  | inl e ↦ subst (λ v. p v ≡ true) ((text_eq_iff x o).0 e) (all_cons p x xs h).0
  | inr e ↦ all-is_listed p o xs (all_cons p x xs h).1 (ground (arith, e, k))
]

-- The facts about an option of a select of the catalogue.
abbrev pub IsGood : SensorDefinition → Text → Type 0
IsGood d o =
    (d.uppercase_value ≡ some true)
    × (d.parse_as_type ≡ codes "text")
    × (returns_as d.translation_key o ≡ true)

capital-eq : (u : Option Bool) → is_capital u ≡ true → u ≡ some true
capital-eq none h = absurd (cc)
capital-eq (some b) h = ap some h

pub select-IsGood :
    (opts : Dict Text) (key o : Text) (d : SensorDefinition)
    → lookup key (get_sensor_definitions opts) ≡ some d
    → d.ha_platform ≡ codes "select"
    → is_listed o (options_of d) ≡ true
    → IsGood d o
unfolding is_good_select
select-IsGood opts key o d found select listed =
    let good =
      all_items-lookup is_good_select key d (get_sensor_definitions opts)
        (all_definitions is_good_select (tag_ignored is_good_select group_kept) puffer_good opts
          items_good)
        found in
    let known =
      if_then (text_eq d.ha_platform (codes "select")) _ true
        ((text_eq_iff d.ha_platform (codes "select")).1 select) good in
    let (capital, is_text, returns) = three_true _ _ _ known in
    (
      capital-eq d.uppercase_value capital,
      (text_eq_iff d.parse_as_type (codes "text")).0 is_text,
      all-is_listed (returns_as d.translation_key) o (options_of d) returns listed,
    )

-- The pieces of `returns_as`.
abbrev Survives : SensorDefinition → Text → Type 0
Survives d o =
    (strip (upper_text o) ≡ upper_text o)
    × (has b'&' (upper_text o) ≡ false)
    × (is_listed (strip (lower_text (upper_text o))) hdg_unavailable_strings ≡ false)
    × (lower_text (upper_text o) ≡ o)
    × (lower_text (resolved_option (table_for d.translation_key) (upper_text o)) ≡ o)

five_parts :
    (a b c e f : Bool)
    → (a && not b && not c && e && f) ≡ true
    → (a ≡ true) × (b ≡ false) × (c ≡ false) × (e ≡ true) × (f ≡ true)
five_parts a b c e f h = ground (arith, h)

pub survives :
    (d : SensorDefinition) (o : Text) → returns_as d.translation_key o ≡ true → Survives d o
survives d o h =
    let (a, b, c, e, f) = five_parts _ _ _ _ _ h in
    (
      (text_eq_iff (strip (upper_text o)) (upper_text o)).0 a,
      b,
      c,
      (text_eq_iff (lower_text (upper_text o)) o).0 e,
      (text_eq_iff (lower_text (resolved_option (table_for d.translation_key) (upper_text o))) o).0
          f,
    )
