-- ===== src/AccessManager/WorkerLoop.antt =====
-- The worker of custom_components/hdg_boiler/helpers/api_access_manager.py: `_worker_loop`,
-- `_process_request`, `_handle_request_failure` and `_retry_request`, cut where they wait, and
-- `start`, `stop` and `_drain_queue`.
use hdg_bavaria_homeassistan.Prelude.{
  ℕ, ◌+◌, Text, ◌&&◌, Option, none, some, List, [], ◌∷◌, ltb, if◌then◌else◌,
}
use hdg_bavaria_homeassistan.Prelude.Mapping.{erase, store}
use hdg_bavaria_homeassistan.Models.{is_set_node, truthy}
use hdg_bavaria_homeassistan.AccessManager.Queue.{Entry, insert_entry}
use hdg_bavaria_homeassistan.AccessManager.State.{
  returned, raised, shut_down, ApiRequest, Worker, absent, waiting, executing, sleeping, Manager,
  resolve, set_value_retry_attempts,
}

-- `start`: a worker task that has ended is absent too
start_worker : Worker → Worker
start_worker absent = waiting
start_worker w = w

-- What `execute` ends with.
pub data Answer (R E : Type 0) : Type 0 where
  result : R → Answer R E
  exception : E → Answer R E

module _ {R E : Type 0} where
  unfoldable pub start : Manager R E → Manager R E
  unfolding start_worker
  start m = record m { worker = start_worker m.worker }

  -- `_worker_loop`, from `get` to `execute`: a superseded request is passed over
  unfoldable pub take_request : ℕ → Option (ApiRequest R E) → Manager R E → Manager R E
  take_request r none m = m
  take_request r (some request) m =
      if request.is_superseded then m else record m { worker = executing r }

  unfoldable pub get_from : Worker → List Entry → Manager R E → Manager R E
  unfolding take_request
  get_from waiting (e ∷ rest) m =
      take_request e.request (m.requests e.request) (record m { request_queue = rest })
  get_from _ _ m = m

  unfoldable pub worker_get : Manager R E → Manager R E
  unfolding get_from
  worker_get m = get_from m.worker m.request_queue m

  -- `_handle_request_failure`, with `_retry_request` up to its sleep
  pub fail_request : ℕ → E → Option (ApiRequest R E) → Manager R E → Manager R E
  unfolding resolve
  fail_request r e none m = record m { worker = waiting }
  fail_request r e (some request) m =
      if is_set_node request.command.cmd_type && ltb request.retry_count set_value_retry_attempts
      then record m {
        worker = sleeping r;
        requests = store r (record request { retry_count = request.retry_count + 1 }) m.requests;
      }
      else resolve r (raised e) (record m { worker = waiting })

  -- `_process_request` after `execute`, on the request that the worker holds
  pub answer_request : ℕ → Answer R E → Manager R E → Manager R E
  unfolding fail_request resolve
  answer_request r (result v) m = resolve r (returned v) (record m { worker = waiting })
  answer_request r (exception e) m = fail_request r e (m.requests r) m

  pub answer_to : Worker → Answer R E → Manager R E → Manager R E
  unfolding answer_request
  answer_to (executing r) a m = answer_request r a m
  answer_to _ a m = m

  unfoldable pub worker_answer : Answer R E → Manager R E → Manager R E
  unfolding answer_to
  worker_answer a m = answer_to m.worker a m

  -- `_retry_request` after its sleep
  unfoldable pub requeue : ℕ → Option (ApiRequest R E) → Manager R E → Manager R E
  unfolding insert_entry
  requeue r none m = record m { worker = waiting }
  requeue r (some request) m =
      let order = m.request_id_counter + 1 in
      record m {
        worker = waiting;
        request_id_counter = order;
        request_queue =
            insert_entry (record { priority = request.priority; order = order; request = r })
              m.request_queue;
      }

  unfoldable pub wake_from : Worker → Manager R E → Manager R E
  unfolding requeue
  wake_from (sleeping r) m = requeue r (m.requests r) m
  wake_from _ m = m

  unfoldable pub worker_wake : Manager R E → Manager R E
  unfolding wake_from
  worker_wake m = wake_from m.worker m

  -- One round of the loop of `_drain_queue`, on the entry that it took from the queue.
  unfoldable pub forget : Option (ApiRequest R E) → (Text → Option ℕ) → Text → Option ℕ
  forget none pending = pending
  forget (some request) pending = elim (truthy request.command.context_key) [
    | none ↦ pending
    | some key ↦ erase key pending
  ]

  unfoldable pub drain_entry : Entry → Manager R E → Manager R E
  unfolding resolve forget
  drain_entry e m =
      let n = resolve e.request shut_down m in
      record n { pending_requests = forget (m.requests e.request) n.pending_requests }

  unfoldable pub drain_entries : List Entry → Manager R E → Manager R E
  unfolding drain_entry
  drain_entries [] m = record m { request_queue = [] }
  drain_entries (e ∷ rest) m = drain_entries rest (drain_entry e m)

  unfoldable pub drain_queue : Manager R E → Manager R E
  unfolding drain_entries
  drain_queue m = drain_entries m.request_queue m

  -- `stop`: what the worker was doing is cancelled where it waits, and only the queue is drained
  unfoldable pub cancel_worker : Manager R E → Manager R E
  cancel_worker m = record m { worker = absent }

  unfoldable pub stop : Manager R E → Manager R E
  unfolding cancel_worker drain_queue
  stop m = drain_queue (cancel_worker m)
