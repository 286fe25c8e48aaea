-- ===== src/Registry/Groups/Partition.antt =====
-- The runs of `groupby` on a sorted list:
-- custom_components/hdg_boiler/registry.py
use hdg_bavaria_homeassistan.Prelude.{
  ◌≡◌, refl, ap, ◌∙◌, Text, Bool, false, ◌&&◌, ◌||◌, Option, none, some, List, [], ◌∷◌, any, arith,
  text_eq, text_eq_iff, Bool-cases, inl, inr,
}
use hdg_bavaria_homeassistan.Prelude.Dict.{lookup, IsDict}
use hdg_bavaria_homeassistan.Models.{SensorDefinition}
use hdg_bavaria_homeassistan.Registry.Groups.{text_lt, put_in_run, group_by}
use hdg_bavaria_homeassistan.Registry.Groups.Sorting.{text_lt_antisym, AllFrom, IsSorted}

abbrev pub Runs : Type 0
Runs = List (Text × List SensorDefinition)

unfoldable pub in_group : Text → SensorDefinition → Bool
in_group k d = text_eq d.polling_group k

-- A group before all others, and unequal to the first of them, is none of them.
absent :
    (g h : Text) (ds : List SensorDefinition)
    → AllFrom h ds
    → text_lt h g ≡ false
    → text_eq h g ≡ false
    → any (in_group g) ds ≡ false
unfolding AllFrom in_group
absent g h [] from le ne = refl
absent g h (d ∷ ds) from le ne = ground (
  arith,
  absent g h ds from.1,
  text_eq_iff d.polling_group g,
  text_eq_iff h g,
  text_lt_antisym h g,
)

lookup-put_in_run :
    (k : Text) (d : SensorDefinition) (runs : Runs)
    → text_eq d.polling_group k ≡ false
    → lookup k runs ≡ none
    → lookup k (put_in_run d runs) ≡ none
unfolding put_in_run lookup
lookup-put_in_run k d [] ne e = ground arith
lookup-put_in_run k d ((g, ds) ∷ runs) ne e = ground arith

lookup-group_by :
    (k : Text) (ds : List SensorDefinition)
    → any (in_group k) ds ≡ false
    → lookup k (group_by ds) ≡ none
unfolding group_by lookup in_group
lookup-group_by k [] h = refl
lookup-group_by k (d ∷ ds) h =
    lookup-put_in_run k d (group_by ds) (ground arith) (lookup-group_by k ds (ground arith))

-- The first run is of this group, or none is.
Fits : Text → Runs → Type 0
Fits g [] = Unit
Fits g ((h, ds) ∷ runs) = text_eq h g ≡ false → lookup g runs ≡ none

Fits-put_in_run :
    (g : Text) (d : SensorDefinition) (runs : Runs)
    → (text_eq d.polling_group g ≡ false → lookup g runs ≡ none)
    → Fits g (put_in_run d runs)
unfolding Fits put_in_run lookup
Fits-put_in_run g d [] h = h
Fits-put_in_run g d ((j, ds) ∷ runs) h = elim (Bool-cases (text_eq j d.polling_group)) [
  | inl same_group ↦ rw same_group (λ ne. ground (arith, h, text_eq_iff j d.polling_group))
  | inr other ↦ rw other h
]

Fits-group_by :
    (g : Text) (ds : List SensorDefinition) → AllFrom g ds → IsSorted ds → Fits g (group_by ds)
unfolding group_by Fits AllFrom IsSorted
Fits-group_by g [] from s = tt
Fits-group_by g (d ∷ ds) from s =
    Fits-put_in_run g d (group_by ds)
      (λ ne. lookup-group_by g ds (absent g d.polling_group ds s.0 from.0 ne))

IsDict-put_in_run :
    (d : SensorDefinition) (runs : Runs)
    → Fits d.polling_group runs
    → IsDict runs
    → IsDict (put_in_run d runs)
unfolding Fits put_in_run lookup
IsDict-put_in_run d [] f h = (refl, tt)
IsDict-put_in_run d ((g, ds) ∷ runs) f h = elim (Bool-cases (text_eq g d.polling_group)) [
  | inl same_group ↦ rw same_group h
  | inr other ↦ rw other (ground (arith, f other), h)
]

unfoldable pub found : Option (List SensorDefinition) → List SensorDefinition
found none = []
found (some ds) = ds

any-put_in_run :
    (p : SensorDefinition → Bool) (k : Text) (d : SensorDefinition) (runs : Runs)
    → Fits d.polling_group runs
    → any p (found (lookup k (put_in_run d runs)))
      ≡ ((in_group k d && p d) || any p (found (lookup k runs)))
unfolding Fits put_in_run lookup found in_group
any-put_in_run p k d [] f = ground arith
any-put_in_run p k d ((g, ds) ∷ runs) f =
    ground (arith, f, text_eq_iff g d.polling_group, text_eq_iff g k, text_eq_iff d.polling_group k)

pub IsDict-group_by : (ds : List SensorDefinition) → IsSorted ds → IsDict (group_by ds)
unfolding group_by IsSorted
IsDict-group_by [] s = tt
IsDict-group_by (d ∷ ds) s =
    IsDict-put_in_run d (group_by ds) (Fits-group_by d.polling_group ds s.0 s.1)
      (IsDict-group_by ds s.1)

pub any-group_by :
    (p : SensorDefinition → Bool) (k : Text) (ds : List SensorDefinition)
    → IsSorted ds
    → any p (found (lookup k (group_by ds))) ≡ any (λ d. in_group k d && p d) ds
unfolding group_by IsSorted
any-group_by p k [] s = unfold lookup found in refl
any-group_by p k (d ∷ ds) s =
    any-put_in_run p k d (group_by ds) (Fits-group_by d.polling_group ds s.0 s.1)
    ∙ ap (λ b. (in_group k d && p d) || b) (any-group_by p k ds s.1)
