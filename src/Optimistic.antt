-- ===== src/Optimistic.antt =====
-- custom_components/hdg_boiler/helpers/optimistic_manager.py: values that were sent to the boiler
-- and are shown until it confirms them. `time.monotonic()` is the argument `now`; times are whole
-- milliseconds, and `(now - set_time) < grace` is written without the subtraction.
mod Examples
pub mod Expiry
pub mod Refinement
use hdg_bavaria_homeassistan.Prelude.{
  ℕ, zero, suc, ◌+◌, Text, Bool, true, false, not, Option, none, some, List, [], ◌∷◌, ltb,
  if◌then◌else◌,
}
use hdg_bavaria_homeassistan.Prelude.Dict.{Dict, lookup, insert, without}

-- OPTIMISTIC_GRACE_PERIOD_S of const.py
abbrev pub optimistic_grace_period : ℕ
optimistic_grace_period = 30_000

-- the tuple (value, set_time, grace)
pub record Held : Type 0 where
  pub value : Text
  pub set_time : ℕ
  pub grace : ℕ

abbrev pub Store : Type 0
Store = Dict Held

-- `grace_period or OPTIMISTIC_GRACE_PERIOD_S`
unfoldable pub grace_or_default : Option ℕ → ℕ
grace_or_default none = optimistic_grace_period
grace_or_default (some zero) = optimistic_grace_period
grace_or_default (some grace) = grace

unfoldable pub set_held : ℕ → Text → Text → Option ℕ → Store → Store
set_held now node_id value grace_period =
    insert node_id (record { value = value; set_time = now; grace = grace_or_default grace_period })

-- Is the entry within its grace period?
unfoldable pub is_fresh : ℕ → Held → Bool
is_fresh now entry = ltb now (entry.set_time + entry.grace)

-- `get` drops an entry that has expired
unfoldable pub get_entry : ℕ → Text → Option Held → Store → Option Text × Store
get_entry now node_id none s = (none, s)
get_entry now node_id (some entry) s =
    if is_fresh now entry then (some entry.value, s) else (none, without node_id s)

unfoldable pub get_held : ℕ → Text → Store → Option Text × Store
unfolding get_entry is_fresh
get_held now node_id s = get_entry now node_id (lookup node_id s) s

unfoldable pub clear_held : Text → Store → Store
clear_held node_id = without node_id

-- the list comprehension of `cleanup`
expired_ids : ℕ → Store → List Text
expired_ids now [] = []
expired_ids now ((node_id, entry) ∷ s) =
    let rest = expired_ids now s in if is_fresh now entry then rest else node_id ∷ rest

remove_all : List Text → Store → Store
remove_all [] s = s
remove_all (node_id ∷ rest) s = remove_all rest (without node_id s)

unfoldable pub cleanup_held : ℕ → Store → Store
unfolding expired_ids remove_all is_fresh
cleanup_held now s = remove_all (expired_ids now s) s

-- `is_recently_set`
recent : ℕ → ℕ → Option Held → Bool
recent now window none = false
recent now window (some entry) = ltb now (entry.set_time + window)

unfoldable pub is_recently_set : ℕ → Text → ℕ → Store → Bool
unfolding recent
is_recently_set now node_id window s = recent now window (lookup node_id s)
