-- ===== src/Registry/Groups/Sorting.antt =====
-- Sorting by polling group, and the sorted node IDs of a group:
-- custom_components/hdg_boiler/registry.py
use hdg_bavaria_homeassistan.Prelude.{
  ◌≡◌, refl, ap, ◌∙◌, Text, Bool, true, false, ◌||◌, List, [], ◌∷◌, any, arith, text_eq,
  text_eq_iff, Bool-cases, inl, inr,
}
use hdg_bavaria_homeassistan.Models.{SensorDefinition}
use hdg_bavaria_homeassistan.Polling.{is_listed}
use hdg_bavaria_homeassistan.Registry.Groups.{
  text_lt, insert_by_group, sort_by_group, insert_node, nodes_of,
}

text_lt_trans : (a b c : Text) → text_lt b a ≡ false → text_lt c b ≡ false → text_lt c a ≡ false
unfolding text_lt
text_lt_trans [] b c p q = ground arith
text_lt_trans (x ∷ a) [] c p q = ground arith
text_lt_trans (x ∷ a) (y ∷ b) [] p q = ground arith
text_lt_trans (x ∷ a) (y ∷ b) (z ∷ c) p q = ground (arith, text_lt_trans a b c)

pub text_lt_antisym : (a b : Text) → text_lt a b ≡ false → text_lt b a ≡ false → text_eq a b ≡ true
unfolding text_lt text_eq
text_lt_antisym [] [] p q = refl
text_lt_antisym [] (y ∷ b) p q = ground arith
text_lt_antisym (x ∷ a) [] p q = ground arith
text_lt_antisym (x ∷ a) (y ∷ b) p q = ground (arith, text_lt_antisym a b)

text_lt_asym : (a b : Text) → text_lt a b ≡ true → text_lt b a ≡ false
unfolding text_lt
text_lt_asym [] [] p = ground arith
text_lt_asym [] (y ∷ b) p = ground arith
text_lt_asym (x ∷ a) [] p = ground arith
text_lt_asym (x ∷ a) (y ∷ b) p = ground (arith, text_lt_asym a b)

-- No group of the list comes before `g`.
unfoldable pub AllFrom : Text → List SensorDefinition → Type 0
AllFrom g [] = Unit
AllFrom g (d ∷ ds) = (text_lt d.polling_group g ≡ false) × AllFrom g ds

unfoldable pub IsSorted : List SensorDefinition → Type 0
unfolding AllFrom
IsSorted [] = Unit
IsSorted (d ∷ ds) = AllFrom d.polling_group ds × IsSorted ds

AllFrom-trans :
    (a b : Text) (ds : List SensorDefinition) → text_lt b a ≡ false → AllFrom b ds → AllFrom a ds
unfolding AllFrom
AllFrom-trans a b [] h from = tt
AllFrom-trans a b (d ∷ ds) h from =
    (text_lt_trans a b d.polling_group h from.0, AllFrom-trans a b ds h from.1)

AllFrom-insert :
    (g : Text) (d : SensorDefinition) (ds : List SensorDefinition)
    → text_lt d.polling_group g ≡ false
    → AllFrom g ds
    → AllFrom g (insert_by_group d ds)
unfolding AllFrom insert_by_group
AllFrom-insert g d [] h from = (h, tt)
AllFrom-insert g d (e ∷ ds) h from = elim (Bool-cases (text_lt e.polling_group d.polling_group)) [
  | inl below ↦ rw below (from.0, AllFrom-insert g d ds h from.1)
  | inr above ↦ rw above (h, from)
]

IsSorted-insert :
    (d : SensorDefinition) (ds : List SensorDefinition)
    → IsSorted ds
    → IsSorted (insert_by_group d ds)
unfolding IsSorted AllFrom insert_by_group
IsSorted-insert d [] s = (tt, tt)
IsSorted-insert d (e ∷ ds) s = elim (Bool-cases (text_lt e.polling_group d.polling_group)) [
  | inl below ↦ rw below (
    AllFrom-insert e.polling_group d ds (text_lt_asym e.polling_group d.polling_group below) s.0,
    IsSorted-insert d ds s.1,
  )
  | inr above ↦ rw above ((above, AllFrom-trans d.polling_group e.polling_group ds above s.0), s)
]

pub IsSorted-sort_by_group : (ds : List SensorDefinition) → IsSorted (sort_by_group ds)
unfolding IsSorted sort_by_group
IsSorted-sort_by_group [] = tt
IsSorted-sort_by_group (d ∷ ds) = IsSorted-insert d (sort_by_group ds) (IsSorted-sort_by_group ds)

any-insert_by_group :
    (p : SensorDefinition → Bool) (d : SensorDefinition) (ds : List SensorDefinition)
    → any p (insert_by_group d ds) ≡ (p d || any p ds)
unfolding insert_by_group
any-insert_by_group p d [] = refl
any-insert_by_group p d (e ∷ ds) = ground (arith, any-insert_by_group p d ds)

pub any-sort_by_group :
    (p : SensorDefinition → Bool) (ds : List SensorDefinition) → any p (sort_by_group ds) ≡ any p ds
unfolding sort_by_group
any-sort_by_group p [] = refl
any-sort_by_group p (d ∷ ds) =
    any-insert_by_group p d (sort_by_group ds) ∙ ap (λ b. p d || b) (any-sort_by_group p ds)

listed-insert_node :
    (n m : Text) (nodes : List Text)
    → is_listed n (insert_node m nodes) ≡ (text_eq m n || is_listed n nodes)
unfolding insert_node is_listed
listed-insert_node n m [] = ground arith
listed-insert_node n m (k ∷ nodes) =
    ground (arith, listed-insert_node n m nodes, text_eq_iff m k, text_eq_iff k n, text_eq_iff m n)

pub listed-nodes_of :
    (n : Text) (ds : List SensorDefinition)
    → is_listed n (nodes_of ds) ≡ any (λ d. text_eq d.hdg_node_id n) ds
unfolding nodes_of is_listed
listed-nodes_of n [] = refl
listed-nodes_of n (d ∷ ds) =
    listed-insert_node n d.hdg_node_id (nodes_of ds)
    ∙ ap (λ b. text_eq d.hdg_node_id n || b) (listed-nodes_of n ds)
