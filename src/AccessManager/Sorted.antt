-- ===== src/AccessManager/Sorted.antt =====
-- Sorted queues of entries: custom_components/hdg_boiler/helpers/api_access_manager.py
use hdg_bavaria_homeassistan.Prelude.{
  ℕ, ◌≤◌, ◌<◌, ◌≡◌, ◌⊎◌, true, false, List, [], ◌∷◌, arith, Bool-cases, inl, inr,
}
use hdg_bavaria_homeassistan.AccessManager.{Entry, priority_value, entry_lt, insert_entry}

-- `e` is served before `f`.
abbrev Before : Entry → Entry → Type 0
Before e f =
    (priority_value e.priority < priority_value f.priority)
    ⊎ ((priority_value e.priority ≡ priority_value f.priority) × (e.order < f.order))

abbrev pub BeforeAll : Entry → List Entry → Type 0
BeforeAll e [] = Unit
BeforeAll e (f ∷ rest) = Before e f × BeforeAll e rest

abbrev pub IsSorted : List Entry → Type 0
IsSorted [] = Unit
IsSorted (e ∷ rest) = BeforeAll e rest × IsSorted rest

-- The counters of the entries are at most `n`.
abbrev pub IsBelow : ℕ → List Entry → Type 0
IsBelow n [] = Unit
IsBelow n (e ∷ rest) = (e.order ≤ n) × IsBelow n rest

pub IsBelow-mono : (n k : ℕ) (q : List Entry) → n ≤ k → IsBelow n q → IsBelow k q
IsBelow-mono n k [] le h = tt
IsBelow-mono n k (e ∷ q) le h = (omega arith, IsBelow-mono n k q le h.1)

BeforeAll-trans : (e f : Entry) (q : List Entry) → Before e f → BeforeAll f q → BeforeAll e q
BeforeAll-trans e f [] b h = tt
BeforeAll-trans e f (x ∷ q) b h = (ground arith, BeforeAll-trans e f q b h.1)

BeforeAll-insert_entry :
    (e f : Entry) (q : List Entry) → Before f e → BeforeAll f q → BeforeAll f (insert_entry e q)
unfolding insert_entry
BeforeAll-insert_entry e f [] b h = (b, tt)
BeforeAll-insert_entry e f (x ∷ q) b h = ground (arith, BeforeAll-insert_entry e f q b)

pub IsBelow-insert_entry :
    (n : ℕ) (e : Entry) (q : List Entry) → e.order ≤ n → IsBelow n q → IsBelow n (insert_entry e q)
unfolding insert_entry
IsBelow-insert_entry n e [] b h = (b, tt)
IsBelow-insert_entry n e (x ∷ q) b h = ground (arith, IsBelow-insert_entry n e q b)

Before-of_lt : (e f : Entry) → entry_lt e f ≡ true → Before e f
unfolding entry_lt
Before-of_lt e f h = ground arith

Before-of_not_lt : (e f : Entry) → entry_lt e f ≡ false → f.order < e.order → Before f e
unfolding entry_lt
Before-of_not_lt e f h lt = ground arith

pub IsSorted-insert_entry :
    (e : Entry) (n : ℕ) (q : List Entry)
    → n < e.order
    → IsBelow n q
    → IsSorted q
    → IsSorted (insert_entry e q)
unfolding insert_entry
IsSorted-insert_entry e n [] lt b s = (tt, tt)
IsSorted-insert_entry e n (x ∷ q) lt b s = elim (Bool-cases (entry_lt e x)) [
  | inl first ↦
      rw first ((Before-of_lt e x first, BeforeAll-trans e x q (Before-of_lt e x first) s.0), s)
  | inr later ↦ rw later (
    BeforeAll-insert_entry e x q (Before-of_not_lt e x later (omega arith)) s.0,
    IsSorted-insert_entry e n q lt b.1 s.1,
  )
]
