-- ===== src/Components/Synced.antt =====
-- What the synchronisation of entities does:
-- custom_components/hdg_boiler/helpers/entity_registry_utils.py and
-- custom_components/hdg_boiler/__init__.py
use hdg_bavaria_homeassistan.Prelude.{
  ℕ, ◌≡◌, refl, ap, ◌∙◌, not, ◌||◌, Option-cases, inl, inr, Text, Bool, true, false, Option, none,
  some, List, [], ◌∷◌, all,
}
use mathlib.Core.Path.{ap₂}
use hdg_bavaria_homeassistan.Prelude.Dict.{Dict, lookup, IsDict}
use hdg_bavaria_homeassistan.Models.{SensorDefinition, truthy}
use hdg_bavaria_homeassistan.Entries.{
  RegistryEntry, Disabler, by_integration, by_user, by_other, entry_key, node_unique_id,
  is_disabled,
}
use hdg_bavaria_homeassistan.Entries.UniqueId.{IsQuote, is_plain, entry_key-node_unique_id}
use hdg_bavaria_homeassistan.Components.{
  component_group_options, group_flag, enabled_of_group, suffix_to_enabled, toggled, toggle_when,
  should_enable, sync_entity, sync_entities_by_key, default_of_group, default_with,
  registry_enabled_default,
}
use hdg_bavaria_homeassistan.Components.Groups.{expected, expected_of, lookup-suffix_to_enabled}

toggled_idem : (b : Bool) (who : Option Disabler) → toggled b (toggled b who) ≡ toggled b who
unfolding toggled
toggled_idem true none = refl
toggled_idem true (some by_integration) = refl
toggled_idem true (some by_user) = refl
toggled_idem true (some by_other) = refl
toggled_idem false none = refl
toggled_idem false (some who) = refl

toggle_when_idem :
    (o : Option Bool) (entry : RegistryEntry)
    → toggle_when o (toggle_when o entry) ≡ toggle_when o entry
unfolding toggle_when
toggle_when_idem none entry = refl
toggle_when_idem (some b) entry =
    ap (λ who. record entry { disabled_by = who }) (toggled_idem b entry.disabled_by)

toggle_when-id :
    (o : Option Bool) (entry : RegistryEntry) → (toggle_when o entry).unique_id ≡ entry.unique_id
unfolding toggle_when
toggle_when-id none entry = refl
toggle_when-id (some b) entry = refl

sync_entity_idem :
    (m : Dict Bool) (entry : RegistryEntry)
    → sync_entity m (sync_entity m entry) ≡ sync_entity m entry
unfolding sync_entity
sync_entity_idem m entry =
    let o = should_enable m (entry_key entry.unique_id) in
    ap (λ id. toggle_when (should_enable m (entry_key id)) (toggle_when o entry))
      (toggle_when-id o entry)
    ∙ toggle_when_idem o entry

-- A second synchronization with the same switches changes nothing.
sync_settles :
    (m : Dict Bool) (entries : List RegistryEntry)
    → sync_entities_by_key m (sync_entities_by_key m entries) ≡ sync_entities_by_key m entries
unfolding sync_entities_by_key
sync_settles m [] = refl
sync_settles m (entry ∷ entries) =
    ap₂ (λ e es. e ∷ es) (sync_entity_idem m entry) (sync_settles m entries)

-- Was the entry disabled by someone else?
abbrev pub is_held : Option Disabler → Bool
is_held none = false
is_held (some by_integration) = false
is_held (some by_user) = true
is_held (some by_other) = true

toggled-is_disabled :
    (b : Bool) (who : Option Disabler) → is_disabled (toggled b who) ≡ (not b || is_held who)
unfolding toggled
toggled-is_disabled true none = refl
toggled-is_disabled false none = refl
toggled-is_disabled true (some by_integration) = refl
toggled-is_disabled true (some by_user) = refl
toggled-is_disabled true (some by_other) = refl
toggled-is_disabled false (some who) = refl

-- The decision on the entry of a definition.
sync_entity-of :
    (quote : Text → Text) (flags : Dict Bool) (definitions : Dict SensorDefinition) (m : Dict Bool)
    (device key : Text) (d : SensorDefinition) (who : Option Disabler)
    → IsQuote quote
    → all is_plain key ≡ true
    → IsDict definitions
    → suffix_to_enabled flags definitions ≡ some m
    → lookup key definitions ≡ some d
    → sync_entity m (record { unique_id = node_unique_id quote device key; disabled_by = who })
      ≡ toggle_when
          (expected_of flags (truthy d.component_group))
          (record { unique_id = node_unique_id quote device key; disabled_by = who })
unfolding sync_entity should_enable
sync_entity-of quote flags definitions m device key d who good plain distinct made found =
    let entry : RegistryEntry = record {
      unique_id = node_unique_id quote device key;
      disabled_by = who;
    } in
    ap (λ k. toggle_when (should_enable m k) entry)
      (entry_key-node_unique_id quote device key good plain)
    ∙ ap (λ o. toggle_when o entry)
        (lookup-suffix_to_enabled flags key definitions m distinct made ∙ ap (expected flags) found)

-- After the component groups have been synchronized, an entity of a group with an option is
-- disabled exactly if the option is off or it was disabled by someone other than the integration.
-- The keys of the definitions are distinct, quote writes no colon and keeps small letters, digits
-- and underscores, and the key consists of these.
pub group_option_decides :
    (quote : Text → Text) (flags : Dict Bool) (definitions : Dict SensorDefinition) (m : Dict Bool)
    (device key : Text) (d : SensorDefinition) (who : Option Disabler) (c : ℕ) (g : Text)
    (option : Text × Bool)
    → IsQuote quote
    → all is_plain key ≡ true
    → IsDict definitions
    → suffix_to_enabled flags definitions ≡ some m
    → lookup key definitions ≡ some d
    → d.component_group ≡ some (c ∷ g)
    → lookup (c ∷ g) component_group_options ≡ some option
    → is_disabled
        (sync_entity m
          (record { unique_id = node_unique_id quote device key; disabled_by = who })).disabled_by
      ≡ (not (group_flag flags option) || is_held who)
unfolding toggle_when enabled_of_group
group_option_decides quote flags definitions m device key d who c g option good plain distinct made
      found grouped known =
    rw
      (
        sync_entity-of quote flags definitions m device key d who good plain distinct made found,
        grouped,
      )
      (rw (known) (toggled-is_disabled (group_flag flags option) who))

-- How Home Assistant registers a new entity, by its default.
abbrev pub new_disabled_by : Bool → Option Disabler
new_disabled_by true = none
new_disabled_by false = some by_integration

fresh_kept : (b : Bool) → toggled b (new_disabled_by b) ≡ new_disabled_by b
unfolding toggled
fresh_kept true = refl
fresh_kept false = refl

fresh_when :
    (flags : Dict Bool) (own : Bool) (group : Option Text) (id : Text)
    → toggle_when
        (expected_of flags group)
        (record { unique_id = id; disabled_by = new_disabled_by (default_with flags own group) })
      ≡ record { unique_id = id; disabled_by = new_disabled_by (default_with flags own group) }
unfolding toggle_when default_with default_of_group enabled_of_group
fresh_when flags own none id = refl
fresh_when flags own (some group) id = elim (Option-cases (lookup group component_group_options)) [
  | inl e ↦ rw (e) refl
  | inr (o, e) ↦
      rw (e)
        (ap (λ who. record { unique_id = id; disabled_by = who }) (fresh_kept (group_flag flags o)))
]

-- The default with which an entity is first registered agrees with the synchronization of the
-- component groups: directly after the registration, the synchronization leaves the entry as it
-- is. The keys of the definitions are distinct, quote writes no colon and keeps small letters,
-- digits and underscores, and the key consists of these.
pub fresh_entity_is_kept :
    (quote : Text → Text) (flags : Dict Bool) (definitions : Dict SensorDefinition) (m : Dict Bool)
    (device key : Text) (d : SensorDefinition)
    → IsQuote quote
    → all is_plain key ≡ true
    → IsDict definitions
    → suffix_to_enabled flags definitions ≡ some m
    → lookup key definitions ≡ some d
    → sync_entity m (record {
      unique_id = node_unique_id quote device key;
      disabled_by = new_disabled_by (registry_enabled_default flags d);
    })
      ≡ record {
        unique_id = node_unique_id quote device key;
        disabled_by = new_disabled_by (registry_enabled_default flags d);
      }
unfolding registry_enabled_default
fresh_entity_is_kept quote flags definitions m device key d good plain distinct made found =
    sync_entity-of quote flags definitions m device key d
      (new_disabled_by (registry_enabled_default flags d)) good plain distinct made found
    ∙ fresh_when flags d.entity_registry_enabled_default (truthy d.component_group)
        (node_unique_id quote device key)
