-- ===== src/Registry/Groups/Contents.antt =====
-- What the payload of a polling group asks for: custom_components/hdg_boiler/registry.py
use hdg_bavaria_homeassistan.Prelude.{
  ℕ, ◌≡◌, refl, sym, ap, ◌∙◌, Text, Bool, true, false, ◌&&◌, Option, none, some, List, [], ◌∷◌, any,
  any_ext, arith, text_eq, text_eq_iff, text_eq_refl, Bool-cases, inl, inr,
}
use hdg_bavaria_homeassistan.Prelude.Dict.{Dict, lookup, lookup-insert, IsDict}
use hdg_bavaria_homeassistan.Models.{SensorDefinition, truthy}
use hdg_bavaria_homeassistan.Polling.{is_listed}
use hdg_bavaria_homeassistan.Registry.Groups.{
  NodeGroupPayload, is_filled, is_valid, valid_defs, sort_by_group, group_by, nodes_of, add_payload,
  process_polling_group, process_runs, build_polling_groups,
}
use hdg_bavaria_homeassistan.Registry.Groups.Sorting.{
  IsSorted-sort_by_group, any-sort_by_group, listed-nodes_of,
}
use hdg_bavaria_homeassistan.Registry.Groups.Partition.{
  Runs, in_group, found, IsDict-group_by, any-group_by,
}

-- The nodes of a payload, where no payload asks for none.
abbrev pub nodes_at : Option NodeGroupPayload → List Text
nodes_at none = []
nodes_at (some payload) = payload.nodes

lookup-add_payload :
    (k g : Text) (nodes : List Text) (o : Option ℕ) (ps : Dict NodeGroupPayload)
    → text_eq g k ≡ false
    → lookup k (add_payload g nodes o ps) ≡ lookup k ps
unfolding add_payload
lookup-add_payload k g nodes none ps ne = refl
lookup-add_payload k g nodes (some i) ps ne = lookup-insert g k _ ps ∙ rw ne refl

-- A run of another group leaves the payload as it is.
lookup-process_other :
    (groups : Dict ℕ) (k g : Text) (nodes : List Text) (ps : Dict NodeGroupPayload)
    → text_eq g k ≡ false
    → lookup k (process_polling_group groups g nodes ps) ≡ lookup k ps
unfolding process_polling_group
lookup-process_other groups k [] nodes ps ne = refl
lookup-process_other groups k (c ∷ g) [] ps ne = refl
lookup-process_other groups k (c ∷ g) (n ∷ nodes) ps ne =
    lookup-add_payload k (c ∷ g) (n ∷ nodes) (lookup (c ∷ g) groups) ps ne

-- The run of the group gives its nodes.
nodes-process_own :
    (groups : Dict ℕ) (c i : ℕ) (k : Text) (nodes : List Text) (ps : Dict NodeGroupPayload)
    → lookup (c ∷ k) groups ≡ some i
    → lookup (c ∷ k) ps ≡ none
    → nodes_at (lookup (c ∷ k) (process_polling_group groups (c ∷ k) nodes ps)) ≡ nodes
unfolding process_polling_group add_payload
nodes-process_own groups c i k [] ps valid new = rw new refl
nodes-process_own groups c i k (n ∷ nodes) ps valid new =
    rw
      (
        valid,
        lookup-insert (c ∷ k) (c ∷ k)
            (record { key = c ∷ k; nodes = n ∷ nodes; default_scan_interval = i }) ps,
        text_eq_refl (c ∷ k),
      )
      refl

lookup-process_runs :
    (groups : Dict ℕ) (k : Text) (runs : Runs) (ps : Dict NodeGroupPayload)
    → lookup k runs ≡ none
    → lookup k (process_runs groups runs ps) ≡ lookup k ps
unfolding process_runs
lookup-process_runs groups k [] ps e = refl
lookup-process_runs groups k ((g, ds) ∷ runs) ps e =
    let other : text_eq g k ≡ false = unfold lookup in ground arith in
    lookup-process_runs groups k runs (process_polling_group groups g (nodes_of ds) ps)
      (unfold lookup in ground arith)
    ∙ lookup-process_other groups k g (nodes_of ds) ps other

nodes-process_runs :
    (groups : Dict ℕ) (c i : ℕ) (k : Text) (runs : Runs) (ps : Dict NodeGroupPayload)
    → lookup (c ∷ k) groups ≡ some i
    → IsDict runs
    → lookup (c ∷ k) ps ≡ none
    → nodes_at (lookup (c ∷ k) (process_runs groups runs ps))
      ≡ nodes_of (found (lookup (c ∷ k) runs))
unfolding process_runs found
nodes-process_runs groups c i k [] ps valid d new = rw new refl
nodes-process_runs groups c i k ((g, ds) ∷ runs) ps valid d new =
    elim (Bool-cases (text_eq g (c ∷ k))) [
      | inl own ↦
          let same : g ≡ c ∷ k = (text_eq_iff g (c ∷ k)).0 own in
          rw own (
            ap nodes_at (
              lookup-process_runs groups (c ∷ k) runs
                (process_polling_group groups g (nodes_of ds) ps) (rw (sym same) d.0))
            ∙ rw same (nodes-process_own groups c i k (nodes_of ds) ps valid new))
      | inr other ↦ rw other (
          nodes-process_runs groups c i k runs (process_polling_group groups g (nodes_of ds) ps)
            valid d.1 (lookup-process_other groups (c ∷ k) g (nodes_of ds) ps other ∙ new))
    ]

any-valid_defs :
    (p : SensorDefinition → Bool) (groups : Dict ℕ) (definitions : Dict SensorDefinition)
    → any p (valid_defs groups definitions)
      ≡ any (λ item. is_valid groups item.1 && p item.1) definitions
unfolding valid_defs
any-valid_defs p groups [] = refl
any-valid_defs p groups ((key, d) ∷ rest) = ground (arith, any-valid_defs p groups rest)

lookup-any :
    (k : Text) (i : ℕ) (groups : Dict ℕ)
    → lookup k groups ≡ some i
    → any (λ g. text_eq g.0 k) groups ≡ true
unfolding lookup
lookup-any k i [] e = ground arith
lookup-any k i ((j, v) ∷ groups) e = ground (arith, lookup-any k i groups)

filled_of : (t n : Text) (m : ℕ) → text_eq t (m ∷ n) ≡ true → is_filled (truthy (some t)) ≡ true
unfolding is_filled text_eq
filled_of [] n m h = ground arith
filled_of (c ∷ t) n m h = refl

-- For a definition of this group, which exists, and with this node ID, `is_valid` holds.
valid_of :
    (groups : Dict ℕ) (k n : Text) (i m : ℕ) (d : SensorDefinition)
    → lookup k groups ≡ some i
    → (is_valid groups d && (in_group k d && text_eq d.hdg_node_id (m ∷ n)))
      ≡ (in_group k d && text_eq d.hdg_node_id (m ∷ n))
unfolding is_valid in_group
valid_of groups k n i m d e = ground (
  arith,
  lookup-any d.polling_group i groups,
  text_eq_iff d.polling_group k,
  filled_of d.hdg_node_id n m,
)

-- For the key, not empty, of a polling group that is defined, and for a node ID that is not
-- empty, the payload that the registry builds for the group asks for the node exactly if some
-- definition has that polling group and that node ID.
pub polling_group_has_its_nodes :
    (groups : Dict ℕ) (definitions : Dict SensorDefinition) (c i m : ℕ) (k n : Text)
    → lookup (c ∷ k) groups ≡ some i
    → is_listed (m ∷ n) (nodes_at (lookup (c ∷ k) (build_polling_groups groups definitions)))
      ≡ any
          (λ item. text_eq item.1.polling_group (c ∷ k) && text_eq item.1.hdg_node_id (m ∷ n))
          definitions
unfolding build_polling_groups in_group
polling_group_has_its_nodes groups definitions c i m k n e =
    let ds = valid_defs groups definitions in
    let sorted = sort_by_group ds in
    ap (is_listed (m ∷ n)) (
      nodes-process_runs groups c i k (group_by sorted) [] e
        (IsDict-group_by sorted (IsSorted-sort_by_group ds)) (unfold lookup in refl))
    ∙ listed-nodes_of (m ∷ n) (found (lookup (c ∷ k) (group_by sorted)))
    ∙ any-group_by (λ d. text_eq d.hdg_node_id (m ∷ n)) (c ∷ k) sorted (IsSorted-sort_by_group ds)
    ∙ any-sort_by_group (λ d. in_group (c ∷ k) d && text_eq d.hdg_node_id (m ∷ n)) ds
    ∙ any-valid_defs (λ d. in_group (c ∷ k) d && text_eq d.hdg_node_id (m ∷ n)) groups definitions
    ∙ any_ext _ _ definitions (λ item. valid_of groups (c ∷ k) n i m item.1 e)
