-- ===== src/Polling/Due.antt =====
-- Which groups the next cycle fetches:
-- custom_components/hdg_boiler/coordinator.py
use hdg_bavaria_homeassistan.Prelude.{
  ℕ, ◌+◌, ◌≤◌, ◌≡◌, refl, Text, Bool, true, false, ◌||◌, Option, none, some, List, [], ◌∷◌, arith,
  leb, text_eq_iff,
}
use hdg_bavaria_homeassistan.Prelude.Dict.{Dict, lookup, IsDict}
use hdg_bavaria_homeassistan.Polling.{
  RetryInfo, PollingState, last_update, is_due, due_groups, retry_groups, is_listed, union,
  get_groups_to_fetch, update_polling_status,
}

-- Due by the scan interval of the group, if it has one.
abbrev pub due_by : ℕ → PollingState → Text → Option ℕ → Bool
due_by now s key none = false
due_by now s key (some interval) = leb (last_update key s + interval) now

-- Ready by the retry time of the group, if it has one.
abbrev pub ready_by : ℕ → Option RetryInfo → Bool
ready_by now none = false
ready_by now (some info) = leb info.next_retry_time now

listed-due_groups :
    (now : ℕ) (s : PollingState) (k : Text) (scan : Dict ℕ)
    → IsDict scan
    → is_listed k (due_groups now s scan) ≡ due_by now s k (lookup k scan)
unfolding is_listed due_groups is_due lookup
listed-due_groups now s k [] d = refl
listed-due_groups now s k ((j, i) ∷ scan) d =
    ground (arith, listed-due_groups now s k scan d.1, text_eq_iff j k)

listed-retry_groups :
    (now : ℕ) (k : Text) (infos : Dict RetryInfo)
    → IsDict infos
    → is_listed k (retry_groups now infos) ≡ ready_by now (lookup k infos)
unfolding is_listed retry_groups lookup
listed-retry_groups now k [] d = refl
listed-retry_groups now k ((j, i) ∷ infos) d =
    ground (arith, listed-retry_groups now k infos d.1, text_eq_iff j k)

listed-union :
    (k : Text) (xs ys : List Text) → is_listed k (union xs ys) ≡ (is_listed k xs || is_listed k ys)
unfolding is_listed union
listed-union k [] ys = refl
listed-union k (x ∷ xs) ys = ground (arith, listed-union k xs ys, text_eq_iff x k)

-- Where the scan intervals and the retry entries have each key once, a group is fetched exactly
-- if its scan interval has passed since its last update or its retry time has come.
pub listed-get_groups_to_fetch :
    (now : ℕ) (k : Text) (scan : Dict ℕ) (s : PollingState)
    → IsDict scan
    → IsDict s.failed_group_retry_info
    → is_listed k (get_groups_to_fetch now scan s)
      ≡ (due_by now s k (lookup k scan) || ready_by now (lookup k s.failed_group_retry_info))
unfolding get_groups_to_fetch
listed-get_groups_to_fetch now k scan s d e = rw (
  listed-union k (due_groups now s scan) (retry_groups now s.failed_group_retry_info),
  listed-due_groups now s k scan d,
  listed-retry_groups now k s.failed_group_retry_info e,
)

same_last :
    (now : ℕ) (k : Text) (groups : List Text) (s : PollingState)
    → last_update k (update_polling_status false now groups s).1 ≡ last_update k s
unfolding update_polling_status last_update
same_last now k groups s = refl

-- A group whose scan interval has passed is fetched again at any later time after a cycle that
-- failed as a whole, whatever retry time that cycle gave it.
pub failed_group_stays_due :
    (now later interval : ℕ) (k : Text) (groups : List Text) (scan : Dict ℕ) (s : PollingState)
    → IsDict scan
    → lookup k scan ≡ some interval
    → last_update k s + interval ≤ now
    → now ≤ later
    → is_listed k (get_groups_to_fetch later scan (update_polling_status false now groups s).1)
      ≡ true
unfolding get_groups_to_fetch
failed_group_stays_due now later interval k groups scan s d found due le =
    let t = (update_polling_status false now groups s).1 in
    rw
      (
        listed-union k (due_groups later t scan) (retry_groups later t.failed_group_retry_info),
        listed-due_groups later t k scan d,
        found,
      )
      (ground (arith, same_last now k groups s))
