-- ===== src/Platforms/Shared.antt =====
-- How the three platforms share the definitions out and count them:
-- custom_components/hdg_boiler/registry.py with custom_components/hdg_boiler/helpers/entity_utils.py
use hdg_bavaria_homeassistan.Prelude.{
  ℕ, ◌+◌, ◌≡◌, refl, Text, codes, Bool, true, ◌||◌, some, List, [], ◌∷◌, any, length, arith,
  Bool-cases, inl, inr, text_eq, text_eq_iff,
}
use hdg_bavaria_homeassistan.Prelude.Dict.{Dict, lookup, insert, lookup-insert, all_items}
use hdg_bavaria_homeassistan.Models.{SensorDefinition}
use hdg_bavaria_homeassistan.Registry.{get_entities_for_platform}
use hdg_bavaria_homeassistan.Platforms.{
  Entity, no_entities, total_added_entities, add_entities, increment_added_entity_count, increased,
}

-- Is the platform of the definition one of the three that have descriptions?
unfoldable pub on_platform : Text → SensorDefinition → Bool
unfolding text_eq
on_platform key d =
    text_eq d.ha_platform (codes "sensor")
    || text_eq d.ha_platform (codes "number")
    || text_eq d.ha_platform (codes "select")

-- The three platforms share the definitions out among them.
shared_out :
    (ds : Dict SensorDefinition)
    → all_items on_platform ds ≡ true
    → length (get_entities_for_platform (codes "sensor") ds)
        + length (get_entities_for_platform (codes "number") ds)
        + length (get_entities_for_platform (codes "select") ds)
      ≡ length ds
unfolding get_entities_for_platform all_items on_platform
shared_out [] h = refl
shared_out ((k, d) ∷ ds) h = ground (
  arith,
  shared_out ds,
  text_eq_iff d.ha_platform (codes "sensor"),
  text_eq_iff d.ha_platform (codes "number"),
  text_eq_iff d.ha_platform (codes "select"),
  h,
)

unfoldable pub has_key : Text → Dict SensorDefinition → Bool
has_key key ds = any (λ item. text_eq item.0 key) ds

pub none_lost :
    (key : Text) (ds : Dict SensorDefinition)
    → all_items on_platform ds ≡ true
    → (has_key key (get_entities_for_platform (codes "sensor") ds)
        || has_key key (get_entities_for_platform (codes "number") ds)
        || has_key key (get_entities_for_platform (codes "select") ds))
      ≡ has_key key ds
unfolding get_entities_for_platform all_items on_platform has_key
none_lost key [] h = refl
none_lost key ((k, d) ∷ ds) h = ground (arith, none_lost key ds, h)

-- The counter of a platform that is known
abbrev Counts : Text → Dict ℕ → Type 0
Counts platform counts = (n : ℕ) × (lookup platform counts ≡ some n)

total-insert :
    (platform : Text) (count n : ℕ) (counts : Dict ℕ)
    → lookup platform counts ≡ some n
    → total_added_entities (insert platform (n + count) counts)
      ≡ total_added_entities counts + count
unfolding lookup insert total_added_entities
total-insert platform count n [] h = absurd (cc)
total-insert platform count n ((p, m) ∷ counts) h =
    ground (arith, total-insert platform count n counts, h)

total-add_entities :
    (platform : Text) (es : List Entity) (counts : Dict ℕ)
    → Counts platform counts
    → total_added_entities (add_entities platform es counts)
      ≡ total_added_entities counts + length es
unfolding add_entities increment_added_entity_count increased
total-add_entities platform [] counts h = omega arith
total-add_entities platform (e ∷ es) counts (n, h) =
    rw (h) (total-insert platform (length (e ∷ es)) n counts h)

Counts-add_entities :
    (platform other : Text) (es : List Entity) (counts : Dict ℕ)
    → Counts platform counts
    → Counts other counts
    → Counts other (add_entities platform es counts)
unfolding add_entities increment_added_entity_count increased
Counts-add_entities platform other [] counts h k = k
Counts-add_entities platform other (e ∷ es) counts (n, h) (m, k) =
    elim (Bool-cases (text_eq platform other)) [
      | inl same ↦ (
        n + length (e ∷ es),
        rw (h, lookup-insert platform other (n + length (e ∷ es)) counts, same) refl,
      )
      | inr differs ↦
          (m, rw (h, lookup-insert platform other (n + length (e ∷ es)) counts, differs) k)
    ]

-- What the three platforms add, put together.
pub total_three :
    (ds : Dict SensorDefinition) (a b c : List Entity)
    → all_items on_platform ds ≡ true
    → length a ≡ length (get_entities_for_platform (codes "sensor") ds)
    → length b ≡ length (get_entities_for_platform (codes "number") ds)
    → length c ≡ length (get_entities_for_platform (codes "select") ds)
    → total_added_entities (
        add_entities
          (codes "select")
          c
          (add_entities (codes "number") b (add_entities (codes "sensor") a no_entities)))
      ≡ length ds
unfolding total_added_entities lookup text_eq
total_three ds a b c h la lb lc =
    let counts_a = add_entities (codes "sensor") a no_entities in
    let counts_b = add_entities (codes "number") b counts_a in
    let sensor_known : Counts (codes "sensor") no_entities = (0, refl) in
    let number_known =
      Counts-add_entities (codes "sensor") (codes "number") a no_entities sensor_known (0, refl) in
    let select_known =
      Counts-add_entities (codes "number") (codes "select") b counts_a number_known (
        Counts-add_entities (codes "sensor") (codes "select") a no_entities sensor_known
          (0, refl)) in
    omega (
      arith,
      total-add_entities (codes "sensor") a no_entities sensor_known,
      total-add_entities (codes "number") b counts_a number_known,
      total-add_entities (codes "select") c counts_b select_known,
      shared_out ds h,
      la,
      lb,
      lc,
    )
