-- ===== src/Polling.antt =====
-- The polling half of custom_components/hdg_boiler/coordinator.py: which groups are due, what a
-- cycle leaves behind, and when a failed group is tried again. `time.monotonic()` is the argument
-- `now`; times are whole milliseconds. The set of groups to fetch is a list in some order.
mod Examples
pub mod Backoff
pub mod Due
use hdg_bavaria_homeassistan.Prelude.{
  ℕ, zero, suc, ◌+◌, ◌-◌, ◌*◌, ◌^◌, Text, Bool, true, false, ◌&&◌, ◌||◌, Option, none, some, List,
  [], ◌∷◌, ltb, leb, any, text_eq, if◌then◌else◌,
}
use hdg_bavaria_homeassistan.Prelude.Dict.{Dict, lookup, insert, without}

-- POLLING_RETRY_INITIAL_DELAY_S, _BACKOFF_FACTOR and _MAX_DELAY_S of const.py
abbrev pub polling_retry_initial_delay : ℕ
polling_retry_initial_delay = 60_000

abbrev polling_retry_backoff_factor : ℕ
polling_retry_backoff_factor = 2

abbrev pub polling_retry_max_delay : ℕ
polling_retry_max_delay = 300_000

-- an entry of `failed_group_retry_info`
pub record RetryInfo : Type 0 where
  pub attempts : ℕ
  pub next_retry_time : ℕ

-- `PollingState` of models.py; the time of the last success is `last_update_success_time`
pub record PollingState : Type 0 where
  pub consecutive_failures : ℕ
  pub consecutive_connection_failures : ℕ
  pub consecutive_preemption_failures : ℕ
  pub last_update_success_time : Option ℕ
  pub last_update_times : Dict ℕ
  pub failed_group_retry_info : Dict RetryInfo

abbrev pub init_polling : PollingState
init_polling = record {
  consecutive_failures = 0;
  consecutive_connection_failures = 0;
  consecutive_preemption_failures = 0;
  last_update_success_time = none;
  last_update_times = [];
  failed_group_retry_info = [];
}

-- `last_update_times.get(key, 0.0)`
pub last_update : Text → PollingState → ℕ
last_update key s = elim (lookup key s.last_update_times) [ none ↦ 0 | some t ↦ t ]

-- `current_time - last >= interval`; a recorded time is not in the future
pub is_due : ℕ → PollingState → Text → ℕ → Bool
unfolding last_update
is_due now s key interval = leb (last_update key s + interval) now

due_groups : ℕ → PollingState → Dict ℕ → List Text
due_groups now s [] = []
due_groups now s ((key, interval) ∷ scan_intervals) =
    let rest = due_groups now s scan_intervals in
    if is_due now s key interval then key ∷ rest else rest

retry_groups : ℕ → Dict RetryInfo → List Text
retry_groups now [] = []
retry_groups now ((key, info) ∷ infos) =
    let rest = retry_groups now infos in if leb info.next_retry_time now then key ∷ rest else rest

unfoldable pub is_listed : Text → List Text → Bool
is_listed k = any (λ i. text_eq i k)

-- `due_groups | retry_groups`
union : List Text → List Text → List Text
unfolding is_listed
union [] ys = ys
union (x ∷ xs) ys = let rest = union xs ys in if is_listed x ys then rest else x ∷ rest

-- `_get_groups_to_fetch`, with the scan interval of each polling group
unfoldable pub get_groups_to_fetch : ℕ → Dict ℕ → PollingState → List Text
unfolding due_groups retry_groups union is_due
get_groups_to_fetch now scan_intervals s =
    union (due_groups now s scan_intervals) (retry_groups now s.failed_group_retry_info)

-- `POLLING_RETRY_BACKOFF_FACTOR ** n`: a float is below 2^1024, and the power is an OverflowError
-- (`none`) where it is not. Powers of two are exact; the product with the delay may be infinite, of
-- which the minimum is the maximal delay.
float_power : ℕ → Option ℕ
float_power n = if leb 1024 n then none else some (polling_retry_backoff_factor ^ n)

-- the delay before the retry that follows this many attempts
pub capped : ℕ → ℕ
capped delay = if ltb polling_retry_max_delay delay then polling_retry_max_delay else delay

pub retry_delay : ℕ → Option ℕ
unfolding float_power capped
retry_delay attempts = elim (float_power (attempts - 1)) [
  | none ↦ none
  | some power ↦ some (capped (polling_retry_initial_delay * power))
]

-- One round of the loop of `_update_polling_status`: `info` with its attempt counted.
bump_info : Option RetryInfo → RetryInfo
bump_info none = record { attempts = 1; next_retry_time = 0 }
bump_info (some info) = record info { attempts = info.attempts + 1 }

-- An entry that is in the table is counted in the table; a new one is not in it yet.
count_attempt : Text → Option RetryInfo → Dict RetryInfo → Dict RetryInfo
unfolding bump_info
count_attempt key none infos = infos
count_attempt key (some info) infos = insert key (bump_info (some info)) infos

-- The loop: does it end, or does an OverflowError leave it? Then the table.
schedule_retries : ℕ → List Text → Dict RetryInfo → Bool × Dict RetryInfo
unfolding bump_info retry_delay count_attempt
schedule_retries now [] infos = (true, infos)
schedule_retries now (key ∷ keys) infos =
    let info = bump_info (lookup key infos) in
    elim (retry_delay info.attempts) [
      | none ↦ (false, count_attempt key (lookup key infos) infos)
      | some delay ↦
          schedule_retries now keys
            (insert key (record info { next_retry_time = now + delay }) infos)
    ]

-- the loop of `_handle_successful_poll`
forget_updated : Dict ℕ → Dict RetryInfo → Dict RetryInfo
forget_updated times [] = []
forget_updated times ((key, info) ∷ infos) =
    let rest = forget_updated times infos in
    let kept = (key, info) ∷ rest in
    elim (lookup key times) [ none ↦ kept | some t ↦ if ltb 0 t then rest else kept ]

handle_successful_poll : ℕ → PollingState → PollingState
unfolding forget_updated
handle_successful_poll now s = record s {
  consecutive_failures = 0;
  consecutive_connection_failures = 0;
  last_update_success_time = some now;
  failed_group_retry_info = forget_updated s.last_update_times s.failed_group_retry_info;
}

-- Does it return, or raise an OverflowError? Then the state.
unfoldable pub update_polling_status : Bool → ℕ → List Text → PollingState → Bool × PollingState
unfolding handle_successful_poll schedule_retries
update_polling_status true now groups s = (true, handle_successful_poll now s)
update_polling_status false now groups s =
    let (returns, infos) = schedule_retries now groups s.failed_group_retry_info in
    (
      returns,
      record s {
        consecutive_failures = s.consecutive_failures + 1;
        failed_group_retry_info = infos;
      },
    )
