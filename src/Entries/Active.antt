-- ===== src/Entries/Active.antt =====
-- Which nodes are polled: the set `_active_node_ids` of custom_components/hdg_boiler/coordinator.py
-- and the calls of custom_components/hdg_boiler/entity.py that change it.
use hdg_bavaria_homeassistan.Prelude.{
  ℕ, ◌≡◌, refl, ◌∙◌, ap, Text, Bool, true, false, not, ◌&&◌, ◌||◌, Option, none, some, List, [],
  ◌∷◌, any, arith, text_eq, text_eq_iff, if◌then◌else◌,
}
use hdg_bavaria_homeassistan.Prelude.Dict.{Dict, lookup}
use hdg_bavaria_homeassistan.Models.{SensorDefinition}
use hdg_bavaria_homeassistan.NodeId.{strip_hdg_node_suffix}
use hdg_bavaria_homeassistan.Polling.{is_listed}
use hdg_bavaria_homeassistan.Registry.{get_default_active_node_ids, get_optimized_payload}
use hdg_bavaria_homeassistan.Registry.Groups.{build_polling_groups}
use hdg_bavaria_homeassistan.Registry.Groups.Contents.{polling_group_has_its_nodes, nodes_at}
use hdg_bavaria_homeassistan.Registry.Indexes.{
  requested, optimized_payload_is_active, is_enabled_node, listed-get_default_active_node_ids,
}
use hdg_bavaria_homeassistan.Entries.{
  resolve_node_id_from_entity_entry, register_node, unregister_node, RegistryEntry, is_disabled,
  sync_entry, sync_active_nodes, Notice, added, removed, updated, notify, notify_all,
}

listed-register :
    (n m : Text) (active : List Text)
    → is_listed n (register_node m active) ≡ (text_eq m n || is_listed n active)
unfolding register_node is_listed
listed-register n m active = ground (arith, text_eq_iff m n)

listed-unregister :
    (n m : Text) (active : List Text)
    → is_listed n (unregister_node m active) ≡ (not (text_eq m n) && is_listed n active)
unfolding unregister_node is_listed
listed-unregister n m [] = ground arith
listed-unregister n m (k ∷ active) =
    ground (arith, listed-unregister n m active, text_eq_iff m n, text_eq_iff k m, text_eq_iff k n)

-- Whether a node is active after a notice to one of its entities.
abbrev after_notice : Notice → Bool → Bool
after_notice (added b) active = b || active
after_notice (removed b) active = not b && active
after_notice (updated b) active = b

-- Whether the node is active after all notices, of which only those to its own entities count.
abbrev pub after_notices : Text → List (Notice × Text) → Bool → Bool
after_notices n [] active = active
after_notices n ((notice, m) ∷ rest) active =
    after_notices n rest (if text_eq m n then after_notice notice active else active)

listed-notify :
    (n m : Text) (notice : Notice) (active : List Text)
    → is_listed n (notify notice m active)
      ≡ (if text_eq m n then after_notice notice (is_listed n active) else is_listed n active)
unfolding notify
listed-notify n m (added true) active = ground (arith, listed-register n m active)
listed-notify n m (added false) active = ground arith
listed-notify n m (removed true) active = ground (arith, listed-unregister n m active)
listed-notify n m (removed false) active = ground arith
listed-notify n m (updated true) active = ground (arith, listed-register n m active)
listed-notify n m (updated false) active = ground (arith, listed-unregister n m active)

-- Of all notices, only those to its own entities change whether a node is active.
listed-notify_all :
    (n : Text) (notices : List (Notice × Text)) (active : List Text)
    → is_listed n (notify_all notices active) ≡ after_notices n notices (is_listed n active)
unfolding notify_all
listed-notify_all n [] active = refl
listed-notify_all n ((notice, m) ∷ rest) active =
    listed-notify_all n rest (notify notice m active)
    ∙ ap (after_notices n rest) (listed-notify n m notice active)

-- Does an entry that is not disabled lead to the node?
abbrev pub leads_to : Text → Dict SensorDefinition → RegistryEntry → Bool
leads_to n definitions entry =
    not (is_disabled entry.disabled_by)
    && elim (resolve_node_id_from_entity_entry entry.unique_id definitions) [
      | none ↦ false
      | some node_id ↦ text_eq node_id n
    ]

listed-sync_entry :
    (n : Text) (b : Bool) (o : Option Text) (active : List Text)
    → is_listed n (sync_entry b o active) ≡ (
        (not b && elim o [ none ↦ false | some node_id ↦ text_eq node_id n ]) || is_listed n active)
unfolding sync_entry
listed-sync_entry n true none active = refl
listed-sync_entry n false none active = refl
listed-sync_entry n true (some m) active = refl
listed-sync_entry n false (some m) active = listed-register n m active

listed-sync :
    (n : Text) (definitions : Dict SensorDefinition) (entries : List RegistryEntry)
    (active : List Text)
    → is_listed n (sync_active_nodes definitions entries active)
      ≡ (any (leads_to n definitions) entries || is_listed n active)
unfolding sync_active_nodes
listed-sync n definitions [] active = refl
listed-sync n definitions (entry ∷ entries) active = ground (
  arith,
  listed-sync n definitions entries (
      sync_entry (is_disabled entry.disabled_by)
        (resolve_node_id_from_entity_entry entry.unique_id definitions) active),
  listed-sync_entry n (is_disabled entry.disabled_by)
      (resolve_node_id_from_entity_entry entry.unique_id definitions) active,
)

-- The active nodes after the start of the coordinator and some notices.
pub active_after : Dict SensorDefinition → List RegistryEntry → List (Notice × Text) → List Text
active_after definitions entries notices =
    notify_all notices
      (sync_active_nodes definitions entries (get_default_active_node_ids definitions))

-- After the start of the coordinator and any notices to entities, the request for a polling group
-- that is defined asks for a node, its ID not empty, exactly if some definition has that group
-- and that ID and the base of the ID is active: some definition of that base is enabled by
-- default or some entry of the registry that is not disabled leads to it, and this is changed by
-- the notices to entities of that base alone, in their order.
pub group_requests_active_nodes :
    (groups : Dict ℕ) (definitions : Dict SensorDefinition) (entries : List RegistryEntry)
    (notices : List (Notice × Text)) (c i m : ℕ) (k n : Text)
    → lookup (c ∷ k) groups ≡ some i
    → is_listed (m ∷ n) (
        requested
          (get_optimized_payload
            (nodes_at (lookup (c ∷ k) (build_polling_groups groups definitions)))
            (active_after definitions entries notices)).0)
      ≡ (any
            (λ item. text_eq item.1.polling_group (c ∷ k) && text_eq item.1.hdg_node_id (m ∷ n))
            definitions
          && after_notices (strip_hdg_node_suffix (m ∷ n)) notices (
              any (leads_to (strip_hdg_node_suffix (m ∷ n)) definitions) entries
              || any (λ item. is_enabled_node (strip_hdg_node_suffix (m ∷ n)) item.1) definitions))
unfolding active_after
group_requests_active_nodes groups definitions entries notices c i m k n e =
    let base = strip_hdg_node_suffix (m ∷ n) in
    let nodes = nodes_at (lookup (c ∷ k) (build_polling_groups groups definitions)) in
    (optimized_payload_is_active nodes (active_after definitions entries notices)).0 (m ∷ n)
    ∙ rw
        (
          polling_group_has_its_nodes groups definitions c i m k n e,
          listed-notify_all base notices
              (sync_active_nodes definitions entries (get_default_active_node_ids definitions)),
          listed-sync base definitions entries (get_default_active_node_ids definitions),
          listed-get_default_active_node_ids base definitions,
        )
        refl
