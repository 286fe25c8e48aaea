-- ===== src/Refresh.antt =====
-- The refresh cycle of custom_components/hdg_boiler/coordinator.py: `_fetch_group_data` as far as
-- it changes the polling state, `_concurrently_fetch_groups`, `_async_update_data`,
-- `async_poll_everything` and `async_config_entry_first_refresh`. How the request for a group ends
-- is the argument `outcome`; what the data of a group does to the nodes is in Processor.
mod Examples
pub mod Outcomes
use hdg_bavaria_homeassistan.Prelude.{
  ℕ, ◌+◌, Text, Bool, true, false, ◌||◌, Option, none, some, List, [], ◌∷◌, any, if◌then◌else◌,
}
use hdg_bavaria_homeassistan.Prelude.Dict.{Dict, lookup, insert}
use hdg_bavaria_homeassistan.Polling.{
  PollingState, get_groups_to_fetch, update_polling_status, init_polling,
}
use hdg_bavaria_homeassistan.Optimistic.{Store, cleanup_held}

-- How `_fetch_group_data` ends: no active nodes, data, no data, and the exceptions by class.
pub data GroupOutcome : Type 0 where
  skipped fetched nothing preempted connection_lost api_failure unexpected : GroupOutcome

-- the value that `fetch_with_semaphore` returns; `none` is `HdgApiConnectionError`
pub group_result : GroupOutcome → Option Bool
group_result skipped = some true
group_result fetched = some true
group_result connection_lost = none
group_result _ = some false

-- `consecutive_preemption_failures`
pub note_outcome : GroupOutcome → PollingState → PollingState
note_outcome fetched s = record s { consecutive_preemption_failures = 0 }
note_outcome preempted s = record s {
  consecutive_preemption_failures = s.consecutive_preemption_failures + 1;
}
note_outcome _ s = s

note_all : (Text → GroupOutcome) → List Text → PollingState → PollingState
unfolding note_outcome
note_all outcome [] s = s
note_all outcome (g ∷ gs) s = note_all outcome gs (note_outcome (outcome g) s)

-- `asyncio.gather`: the results in order, or the connection error
gather : (Text → GroupOutcome) → List Text → Option (List (Text × Bool))
unfolding group_result
gather outcome [] = some []
gather outcome (g ∷ gs) =
    let rest = gather outcome gs in
    elim (group_result (outcome g)) [
      | none ↦ none
      | some b ↦ elim rest [ none ↦ none | some rs ↦ some ((g, b) ∷ rs) ]
    ]

-- `last_update_times[group_key] = time.monotonic()` for each success
pub record_updates : ℕ → List (Text × Bool) → Dict ℕ → Dict ℕ
record_updates now [] times = times
record_updates now ((g, b) ∷ rs) times =
    record_updates now rs (if b then insert g now times else times)

pub any_success : List (Text × Bool) → Bool
any_success = any (λ r. r.1)

finish_fetch : ℕ → Option (List (Text × Bool)) → PollingState → Option Bool × PollingState
unfolding record_updates any_success
finish_fetch now none s = (none, s)
finish_fetch now (some rs) s = (
  some (any_success rs),
  record s { last_update_times = record_updates now rs s.last_update_times },
)

-- `_concurrently_fetch_groups`: whether any group succeeded, or the connection error
pub concurrently_fetch_groups :
    ℕ → (Text → GroupOutcome) → List Text → PollingState → Option Bool × PollingState
unfolding note_all gather finish_fetch
concurrently_fetch_groups now outcome groups s =
    finish_fetch now (gather outcome groups) (note_all outcome groups s)

pub record Coordinator : Type 0 where
  pub polling : PollingState
  pub optimistic : Store
  pub poll_all_requested : Bool
  pub last_poll_all_success : Bool

abbrev pub init_coordinator : Coordinator
init_coordinator = record {
  polling = init_polling;
  optimistic = [];
  poll_all_requested = false;
  last_poll_all_success = true;
}

-- The end of `_async_update_data`: the cycle is booked, or the connection failure is. An
-- OverflowError of the booking leaves it before the cleanup; Home Assistant logs it.
book_cycle : Bool → ℕ → List Text → Option Bool × PollingState → Coordinator → Coordinator
unfolding update_polling_status cleanup_held
book_cycle poll_all now groups (some success, s) c =
    let (returns, booked) = update_polling_status success now groups s in
    record c {
      last_poll_all_success = if poll_all then success else c.last_poll_all_success;
      polling = booked;
      optimistic = if returns then cleanup_held now c.optimistic else c.optimistic;
    }
book_cycle poll_all now groups (none, s) c = record c {
  last_poll_all_success = if poll_all then false else c.last_poll_all_success;
  polling = record s { consecutive_connection_failures = s.consecutive_connection_failures + 1 };
}

fetch_and_book : Bool → ℕ → (Text → GroupOutcome) → List Text → Coordinator → Coordinator
unfolding book_cycle concurrently_fetch_groups
fetch_and_book poll_all now outcome [] c = record c {
  last_poll_all_success = if poll_all then true else c.last_poll_all_success;
}
fetch_and_book poll_all now outcome (g ∷ gs) c =
    book_cycle poll_all now (g ∷ gs) (concurrently_fetch_groups now outcome (g ∷ gs) c.polling) c

pub keys : Dict ℕ → List Text
keys [] = []
keys ((k, i) ∷ d) = k ∷ keys d

groups_of : Bool → ℕ → Dict ℕ → PollingState → List Text
unfolding get_groups_to_fetch keys
groups_of true now scan s = keys scan
groups_of false now scan s = get_groups_to_fetch now scan s

-- `_async_update_data`; the polling groups are the keys of `scan_intervals`
async_update_data : ℕ → Dict ℕ → (Text → GroupOutcome) → Coordinator → Coordinator
unfolding fetch_and_book groups_of
async_update_data now scan outcome c =
    fetch_and_book c.poll_all_requested now outcome
      (groups_of c.poll_all_requested now scan c.polling) (record c { poll_all_requested = false })

-- `async_poll_everything`
pub async_poll_everything : ℕ → Dict ℕ → (Text → GroupOutcome) → Coordinator → Bool × Coordinator
unfolding async_update_data
async_poll_everything now scan outcome c =
    let d = async_update_data now scan outcome (record c { poll_all_requested = true }) in
    (d.last_poll_all_success, d)

-- `async_config_entry_first_refresh`; false is `UpdateFailed`
first_result : Option Bool × PollingState → Coordinator → Bool × Coordinator
first_result (some success, s) c = (success, record c { polling = s })
first_result (none, s) c = (false, record c { polling = s })

unfoldable first_refresh : ℕ → List Text → (Text → GroupOutcome) → Coordinator → Bool × Coordinator
unfolding first_result concurrently_fetch_groups
first_refresh now groups outcome c =
    first_result (concurrently_fetch_groups now outcome groups c.polling) c
