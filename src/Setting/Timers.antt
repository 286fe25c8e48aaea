-- ===== src/Setting/Timers.antt =====
-- The timers that are live, and those that the coordinator holds as pending:
-- custom_components/hdg_boiler/coordinator.py
use hdg_bavaria_homeassistan.Prelude.{
  ℕ, ◌+◌, ◌<◌, ◌≡◌, refl, Text, Bool, true, false, ◌||◌, Option, none, some, List, [], ◌∷◌, ◌==◌,
  arith, text_eq, text_eq_iff, if◌then◌else◌,
}
use hdg_bavaria_homeassistan.Prelude.Dict.{
  Dict, lookup, insert, without, lookup-insert, lookup-without,
}
use hdg_bavaria_homeassistan.Setting.{
  Timer, Setting, cancel_timer, cancel_pending, find_timer, cancel_each,
}

-- The timers of one node that have still to run.
unfoldable pub timers_for : Text → List Timer → List Timer
timers_for k [] = []
timers_for k (t ∷ ts) = let rest = timers_for k ts in if text_eq t.node_id k then t ∷ rest else rest

-- Every live timer is the one that the pending table holds for its node.
abbrev AllPending : Dict Timer → List Timer → Type 0
AllPending d [] = Unit
AllPending d (t ∷ ts) = (lookup t.node_id d ≡ some t) × AllPending d ts

-- The numbers given out so far are below `n`.
abbrev AllBelow : ℕ → List Timer → Type 0
AllBelow n [] = Unit
AllBelow n (t ∷ ts) = (t.id < n) × AllBelow n ts

module _ {V : Type 0} where
  pub record IsDebounced (s : Setting V) : Type 0 where
    pub held : AllPending s.pending_set_timers s.live
    pub below : AllBelow s.next_id s.live

pub AllBelow-mono : (n : ℕ) (ts : List Timer) → AllBelow n ts → AllBelow (n + 1) ts
AllBelow-mono n [] h = tt
AllBelow-mono n (t ∷ ts) h = (omega arith, AllBelow-mono n ts h.1)

pub AllBelow-cancel : (n i : ℕ) (ts : List Timer) → AllBelow n ts → AllBelow n (cancel_timer i ts)
unfolding cancel_timer
AllBelow-cancel n i [] h = tt
AllBelow-cancel n i (t ∷ ts) h = ground (arith, AllBelow-cancel n i ts h.1)

pub AllBelow-pending :
    (n : ℕ) (o : Option Timer) (ts : List Timer) → AllBelow n ts → AllBelow n (cancel_pending o ts)
unfolding cancel_pending
AllBelow-pending n none ts h = h
AllBelow-pending n (some t) ts h = AllBelow-cancel n t.id ts h

-- After a call for `k`, what is left of the timers is pending still.
pub replaced :
    (k : Text) (new : Timer) (o : Option Timer) (d : Dict Timer) (ts : List Timer)
    → lookup k d ≡ o
    → AllPending d ts
    → AllPending (insert k new (without k d)) (cancel_pending o ts)
unfolding cancel_pending cancel_timer
replaced k new none d [] e h = tt
replaced k new (some t) d [] e h = tt
replaced k new none d (u ∷ ts) e h = ground (
  arith,
  replaced k new none d ts e h.1,
  lookup-insert k u.node_id new (without k d),
  lookup-without k u.node_id d,
  text_eq_iff k u.node_id,
)
replaced k new (some t) d (u ∷ ts) e h = ground (
  arith,
  replaced k new (some t) d ts e h.1,
  lookup-insert k u.node_id new (without k d),
  lookup-without k u.node_id d,
  text_eq_iff k u.node_id,
)

pub none_left :
    (k : Text) (o : Option Timer) (d : Dict Timer) (ts : List Timer)
    → lookup k d ≡ o
    → AllPending d ts
    → timers_for k (cancel_pending o ts) ≡ []
unfolding cancel_pending cancel_timer timers_for
none_left k none d [] e h = refl
none_left k (some t) d [] e h = refl
none_left k none d (u ∷ ts) e h =
    ground (arith, none_left k none d ts e h.1, text_eq_iff u.node_id k)
none_left k (some t) d (u ∷ ts) e h =
    ground (arith, none_left k (some t) d ts e h.1, text_eq_iff u.node_id k)

pub fired :
    (k : Text) (i : ℕ) (d : Dict Timer) (ts : List Timer) (t : Timer)
    → lookup k d ≡ some t
    → t.id ≡ i
    → AllPending d ts
    → AllPending (without k d) (cancel_timer i ts)
unfolding cancel_timer
fired k i d [] t e same h = tt
fired k i d (u ∷ ts) t e same h =
    ground
      (arith, fired k i d ts t e same h.1, lookup-without k u.node_id d, text_eq_iff k u.node_id)

pub find_timer-held :
    (i : ℕ) (d : Dict Timer) (ts : List Timer)
    → AllPending d ts
    → (t : Timer) → find_timer i ts ≡ some t
    → (lookup t.node_id d ≡ some t) × (t.id ≡ i)
unfolding find_timer
find_timer-held i d [] h t e = ground arith
find_timer-held i d (u ∷ ts) h t e = ground (arith, find_timer-held i d ts h.1 t)

none_for :
    (k : Text) (i : ℕ) (d : Dict Timer) (ts : List Timer) (t : Timer)
    → lookup k d ≡ some t
    → t.id ≡ i
    → AllPending d ts
    → timers_for k (cancel_timer i ts) ≡ []
unfolding cancel_timer timers_for
none_for k i d [] t e same h = refl
none_for k i d (u ∷ ts) t e same h =
    ground (arith, none_for k i d ts t e same h.1, text_eq_iff u.node_id k)

pub is_pending : ℕ → Dict Timer → Bool
is_pending i [] = false
is_pending i ((k, t) ∷ d) = (t.id == i) || is_pending i d

-- Every timer is cancelled when all that are live are pending.
abbrev AllIn : Dict Timer → List Timer → Type 0
AllIn d [] = Unit
AllIn d (t ∷ ts) = (is_pending t.id d ≡ true) × AllIn d ts

pending-lookup :
    (k : Text) (d : Dict Timer) (t : Timer) → lookup k d ≡ some t → is_pending t.id d ≡ true
unfolding is_pending lookup
pending-lookup k [] t e = ground arith
pending-lookup k ((j, u) ∷ d) t e = ground (arith, pending-lookup k d t)

pub AllPending-AllIn : (d : Dict Timer) (ts : List Timer) → AllPending d ts → AllIn d ts
AllPending-AllIn d [] h = tt
AllPending-AllIn d (t ∷ ts) h = (pending-lookup t.node_id d t h.0, AllPending-AllIn d ts h.1)

AllIn-cancel :
    (j : Text) (u : Timer) (d : Dict Timer) (ts : List Timer)
    → AllIn ((j, u) ∷ d) ts
    → AllIn d (cancel_timer u.id ts)
unfolding cancel_timer is_pending
AllIn-cancel j u d [] h = tt
AllIn-cancel j u d (t ∷ ts) h = ground (arith, AllIn-cancel j u d ts h.1)

AllIn-none : (ts : List Timer) → AllIn [] ts → ts ≡ []
unfolding is_pending
AllIn-none [] h = refl
AllIn-none (t ∷ ts) h = ground arith

pub cancel_each-AllIn : (d : Dict Timer) (ts : List Timer) → AllIn d ts → cancel_each d ts ≡ []
unfolding cancel_each
cancel_each-AllIn [] ts h = AllIn-none ts h
cancel_each-AllIn ((j, u) ∷ d) ts h =
    cancel_each-AllIn d (cancel_timer u.id ts) (AllIn-cancel j u d ts h)
