-- ===== src/AccessManager/Events.antt =====
-- What can happen to the access manager of
-- custom_components/hdg_boiler/helpers/api_access_manager.py, one event at a time: the event loop
-- runs one coroutine until it waits, in an order that the environment chooses.
use hdg_bavaria_homeassistan.Prelude.{ℕ, Bool, true, false, Option, none, some, List, [], ◌∷◌, ◌==◌}
use hdg_bavaria_homeassistan.Models.{HdgCommand}
use hdg_bavaria_homeassistan.AccessManager.{
  ApiPriority, ApiRequest, Manager, Worker, executing, sleeping, cancelled, Answer, resolve,
  submit_request, run_callback, start, worker_get, worker_answer, worker_wake, cancel_worker,
  drain_queue,
}

pub data Event (R E : Type 0) : Type 0 where
  -- a coroutine calls `submit_request`
  submit : ApiPriority → HdgCommand → Event R E
  -- the worker goes on: from `queue.get()`, from `execute`, from its sleep
  get : Event R E
  answer : Answer R E → Event R E
  wake : Event R E
  -- the loop runs a done callback
  callback : Event R E
  -- a task that awaits the future of this request is cancelled, and the future with it
  cancel : ℕ → Event R E
  -- `start`, and the two halves of `stop`
  begin halt drain : Event R E

-- Does the worker hold this request?
abbrev pub holds : Worker → ℕ → Bool
holds (executing s) r = s == r
holds (sleeping s) r = s == r
holds _ r = false

module _ {R E : Type 0} where
  unfoldable pub step : Event R E → Manager R E → Manager R E
  unfolding submit_request worker_get worker_answer worker_wake run_callback resolve start
      cancel_worker drain_queue
  step (submit priority command) m = (submit_request priority command m).1
  step get m = worker_get m
  step (answer a) m = worker_answer a m
  step wake m = worker_wake m
  step callback m = run_callback m
  step (cancel r) m = resolve r cancelled m
  step begin m = start m
  step halt m = cancel_worker m
  step drain m = drain_queue m

  unfoldable pub run : List (Event R E) → Manager R E → Manager R E
  run [] m = m
  run (e ∷ es) m = run es (step e m)

  -- A request whose future is not done.
  abbrev pub is_open : Option (ApiRequest R E) → Bool
  is_open none = false
  is_open (some request) = elim request.future [ none ↦ true | some _ ↦ false ]
