-- ===== src/Components/Groups.antt =====
-- The groups of the catalogue and their options: custom_components/hdg_boiler/definitions.py,
-- custom_components/hdg_boiler/const.py and custom_components/hdg_boiler/__init__.py
use hdg_bavaria_homeassistan.Prelude.{
  ◌≡◌, refl, ap, sym, ◌∙◌, Text, Bool, true, false, Option, none, some, [], ◌∷◌, arith, both_true,
  Option-cases, inl, inr, text_eq, text_eq_iff, if◌then◌else◌,
}
use hdg_bavaria_homeassistan.Prelude.Dict.{Dict, lookup, all_items, IsDict}
use hdg_bavaria_homeassistan.Models.{SensorDefinition, truthy}
use hdg_bavaria_homeassistan.Definitions.{sensor_items, prefix_group_map, get_sensor_definitions}
use hdg_bavaria_homeassistan.Definitions.Base.{polling_group_1}
use hdg_bavaria_homeassistan.Definitions.Factories.{create_temp_sensor}
use hdg_bavaria_homeassistan.Definitions.Everywhere.{all_definitions, tag_by_prefix_passes}
use hdg_bavaria_homeassistan.Components.{
  component_group_options, group_flag, enabled_of_group, put_enabled, enabled_with,
  suffix_to_enabled,
}

-- Has the group of the definition, if it has one, an option?
has_option : Option Text → Bool
has_option none = true
has_option (some group) = elim (lookup group component_group_options) [
  | none ↦ false
  | some o ↦ true
]

group_has_option : Text → SensorDefinition → Bool
unfolding has_option
group_has_option k d = has_option (truthy d.component_group)

items_have_options : all_items group_has_option sensor_items ≡ true
unfolding all_items group_has_option sensor_items component_group_options lookup text_eq
items_have_options = refl

tags_have_options :
    (k : Text) (d : SensorDefinition)
    → all_items
        (λ prefix group. group_has_option k (record d { component_group = some group }))
        prefix_group_map
      ≡ true
unfolding all_items group_has_option component_group_options lookup text_eq prefix_group_map
tags_have_options k d = refl

puffer_has_option :
    (key nid icon : Text)
    → group_has_option key (create_temp_sensor key nid polling_group_1 icon none true) ≡ true
unfolding group_has_option create_temp_sensor
puffer_has_option key nid icon = refl

all_have_options :
    (opts : Dict Text) → all_items group_has_option (get_sensor_definitions opts) ≡ true
all_have_options opts =
    all_definitions group_has_option
      (λ k d. tag_by_prefix_passes group_has_option prefix_group_map k d (tags_have_options k d))
      puffer_has_option opts items_have_options

no_option :
    (group : Text)
    → has_option (some group) ≡ true
    → lookup group component_group_options ≡ none
    → ⊥
unfolding has_option
no_option group h e = ground (arith, h, e)

known_enabled :
    (flags : Dict Bool) (key : Text) (group : Option Text) (m : Dict Bool)
    → has_option group ≡ true
    → (n : Dict Bool) × (enabled_with flags key group (some m) ≡ some n)
unfolding has_option enabled_with put_enabled enabled_of_group
known_enabled flags key none m h = (m, refl)
known_enabled flags key (some group) m h =
    elim (Option-cases (lookup group component_group_options)) [
      | inl e ↦ absurd (no_option group h e)
      | inr (o, e) ↦ ((key, group_flag flags o) ∷ m, rw (e) refl)
    ]

enabled_exists :
    (flags : Dict Bool) (definitions : Dict SensorDefinition)
    → all_items group_has_option definitions ≡ true
    → (m : Dict Bool) × (suffix_to_enabled flags definitions ≡ some m)
unfolding suffix_to_enabled all_items group_has_option
enabled_exists flags [] h = ([], refl)
enabled_exists flags ((key, d) ∷ rest) h =
    let (first, others) = both_true (group_has_option key d) (all_items group_has_option rest) h in
    let (m, e) = enabled_exists flags rest others in
    rw (e) (known_enabled flags key (truthy d.component_group) m first)

-- Whatever the options of the integration, the synchronization finds an option for the component
-- group of every definition, so the lookup in COMPONENT_GROUP_OPTIONS never raises a KeyError.
pub component_groups_are_known :
    (flags : Dict Bool) (opts : Dict Text)
    → (m : Dict Bool) × (suffix_to_enabled flags (get_sensor_definitions opts) ≡ some m)
component_groups_are_known flags opts =
    enabled_exists flags (get_sensor_definitions opts) (all_have_options opts)

-- What the key of a definition should be, where its group has an option.
abbrev pub expected_of : Dict Bool → Option Text → Option Bool
expected_of flags none = none
expected_of flags (some group) = enabled_of_group flags (lookup group component_group_options)

abbrev pub expected : Dict Bool → Option SensorDefinition → Option Bool
expected flags none = none
expected flags (some d) = expected_of flags (truthy d.component_group)

put_enabled-parts :
    (key : Text) (o : Option Bool) (rest : Option (Dict Bool)) (m : Dict Bool)
    → put_enabled key o rest ≡ some m
    → (b : Bool) × (n : Dict Bool) × (o ≡ some b) × (rest ≡ some n) × (m ≡ (key, b) ∷ n)
unfolding put_enabled
put_enabled-parts key none rest m h = absurd (cc)
put_enabled-parts key (some b) none m h = absurd (cc)
put_enabled-parts key (some b) (some n) m h = (b, n, refl, refl, cc)

-- The first item decides about its own key only.
step_expected :
    (flags : Dict Bool) (k key : Text) (group : Option Text) (rest : Option (Dict Bool))
    (m : Dict Bool) (others : Option Bool)
    → enabled_with flags key group rest ≡ some m
    → ((n : Dict Bool) → rest ≡ some n → lookup k n ≡ others)
    → (text_eq key k ≡ true → others ≡ none)
    → lookup k m ≡ (if text_eq key k then expected_of flags group else others)
unfolding enabled_with lookup
step_expected flags k key none rest m others h ih alone = ground (arith, ih m h, alone)
step_expected flags k key (some group) rest m others h ih alone =
    let (b, n, o_is, rest_is, m_is) =
      put_enabled-parts key (enabled_of_group flags (lookup group component_group_options)) rest m
        h in
    ap (lookup k) m_is ∙ ground (arith, ih n rest_is, o_is)

expected-if :
    (flags : Dict Bool) (b : Bool) (d : SensorDefinition) (o : Option SensorDefinition)
    → (if b then expected_of flags (truthy d.component_group) else expected flags o)
      ≡ expected flags (if b then some d else o)
expected-if flags true d o = refl
expected-if flags false d o = refl

-- The switch that the synchronization finds for a key is the one that its definition asks for.
pub lookup-suffix_to_enabled :
    (flags : Dict Bool) (k : Text) (definitions : Dict SensorDefinition) (m : Dict Bool)
    → IsDict definitions
    → suffix_to_enabled flags definitions ≡ some m
    → lookup k m ≡ expected flags (lookup k definitions)
unfolding suffix_to_enabled lookup
lookup-suffix_to_enabled flags k [] m d h = let m_is : [] ≡ m = cc in ap (lookup k) (sym m_is)
lookup-suffix_to_enabled flags k ((key, d) ∷ rest) m (free, distinct) h =
    step_expected flags k key (truthy d.component_group) (suffix_to_enabled flags rest) m
      (expected flags (lookup k rest)) h (λ n e. lookup-suffix_to_enabled flags k rest n distinct e)
      (λ e.
        ap (λ x. expected flags (lookup x rest)) (sym ((text_eq_iff key k).0 e))
        ∙ ap (expected flags) free)
    ∙ expected-if flags (text_eq key k) d (lookup k rest)
