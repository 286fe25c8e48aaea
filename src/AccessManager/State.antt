-- ===== src/AccessManager/State.antt =====
-- The state of `HdgApiAccessManager` and its futures
-- (custom_components/hdg_boiler/helpers/api_access_manager.py). `R` is what a command returns, `E`
-- what it raises. A future is made for one request and stands in it, so it goes by that request's
-- id. A request is shared by the queue, the pending table and the worker: they hold its id, and
-- `requests` is the heap.
use hdg_bavaria_homeassistan.Prelude.{
  ℕ, Text, Bool, Option, none, some, List, [], ◌∷◌, ◌++◌, ◌==◌, if◌then◌else◌,
}
use hdg_bavaria_homeassistan.Prelude.Mapping.{erase, store, empty}
use hdg_bavaria_homeassistan.Models.{HdgCommand, truthy}
use hdg_bavaria_homeassistan.AccessManager.Queue.{ApiPriority, Entry}

-- SET_VALUE_RETRY_ATTEMPTS of const.py
abbrev pub set_value_retry_attempts : ℕ
set_value_retry_attempts = 3

-- How a future ends. `shut_down` is the error that `_drain_queue` sets, `cancelled` what the loop
-- sets when a caller that awaits the future is cancelled.
pub data Outcome (R E : Type 0) : Type 0 where
  returned : R → Outcome R E
  raised : E → Outcome R E
  shut_down : Outcome R E
  cancelled : Outcome R E

pub record ApiRequest (R E : Type 0) : Type 0 where
  pub request_id : ℕ
  pub priority : ApiPriority
  pub command : HdgCommand
  pub future : Option (Outcome R E)
  pub is_superseded : Bool
  pub retry_count : ℕ

-- Where the worker task stands: no task, at `queue.get()`, in `execute`, in the sleep of a retry.
pub data Worker : Type 0 where
  absent waiting : Worker
  executing sleeping : ℕ → Worker

pub record Manager (R E : Type 0) : Type 0 where
  pub request_queue : List Entry
  pub request_id_counter : ℕ
  pub requests : ℕ → Option (ApiRequest R E)
  pub pending_requests : Text → Option ℕ
  pub worker : Worker
  -- done callbacks that the loop has still to run: context key and request id
  pub callbacks : List (Text × ℕ)

-- The callbacks of a future, for the loop to run when the future is done.
schedule : Option Text → ℕ → List (Text × ℕ) → List (Text × ℕ)
schedule none r cs = cs
schedule (some key) r cs = cs ++ (key, r) ∷ []

module _ {R E : Type 0} where
  -- `HdgApiAccessManager.__init__`
  abbrev pub init_manager : Manager R E
  init_manager = record {
    request_queue = [];
    request_id_counter = 0;
    requests = λ r. none;
    pending_requests = empty;
    worker = absent;
    callbacks = [];
  }

  pub end_future : ℕ → Outcome R E → Option (ApiRequest R E) → Manager R E → Manager R E
  unfolding schedule
  end_future r outcome none m = m
  end_future r outcome (some request) m = elim request.future [
    | some _ ↦ m
    | none ↦ record m {
      requests = store r (record request { future = some outcome }) m.requests;
      callbacks = schedule (truthy request.command.context_key) r m.callbacks;
    }
  ]

  -- `if not future.done(): future.set_result(…)`, or `set_exception`, or `cancel`
  unfoldable pub resolve : ℕ → Outcome R E → Manager R E → Manager R E
  unfolding end_future
  resolve r outcome m = end_future r outcome (m.requests r) m

  -- `_cleanup_pending_request`
  pub cleanup_pending_request : Text → ℕ → Manager R E → Manager R E
  cleanup_pending_request key req_id m = elim (m.pending_requests key) [
    | none ↦ m
    | some r ↦
        if r == req_id then record m { pending_requests = erase key m.pending_requests } else m
  ]

  -- The loop runs the first callback that is due.
  pub run_next : List (Text × ℕ) → Manager R E → Manager R E
  run_next [] m = m
  run_next ((key, r) ∷ rest) m = cleanup_pending_request key r (record m { callbacks = rest })

  unfoldable pub run_callback : Manager R E → Manager R E
  unfolding run_next cleanup_pending_request
  run_callback m = run_next m.callbacks m
