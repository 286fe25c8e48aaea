-- ===== src/AccessManager/Retry.antt =====
-- How often a failing SET is tried again:
-- custom_components/hdg_boiler/helpers/api_access_manager.py
use mathlib.Core.Path.{subst}
use hdg_bavaria_homeassistan.Prelude.{
  ◌+◌, ◌≤◌, ◌<◌, ◌≡◌, refl, true, false, Option, none, some, List, [], ◌∷◌, ◌++◌, ◌∙◌, arith,
  length,
}
use hdg_bavaria_homeassistan.Models.{is_set_node}
use hdg_bavaria_homeassistan.AccessManager.{
  Entry, ApiRequest, Manager, Outcome, waiting, result, exception, returned, raised, worker_get,
  worker_answer, worker_wake, set_value_retry_attempts,
}
use hdg_bavaria_homeassistan.AccessManager.Events.{Event, get, answer, wake, step, run}

module _ {R E : Type 0} where
  -- The future of a request, if it is done.
  abbrev pub future_of : Option (ApiRequest R E) → Option (Outcome R E)
  future_of none = none
  future_of (some q) = q.future

  -- The request is all that is queued; it has failed `k` times.
  pub record IsReady (e : Entry) (q : ApiRequest R E) (m : Manager R E) : Type 0 where
    pub idle : m.worker ≡ waiting
    pub alone : m.request_queue ≡ e ∷ []
    pub found : m.requests e.request ≡ some q
    pub sets : is_set_node q.command.cmd_type ≡ true
    pub kept : q.is_superseded ≡ false
    pub unanswered : q.future ≡ none

  -- The worker executes the request once for each error, and sleeps after each.
  abbrev pub failures : List E → List (Event R E)
  failures [] = []
  failures (x ∷ xs) = get ∷ answer (exception x) ∷ wake ∷ failures xs

  tried : ApiRequest R E → ApiRequest R E
  tried q = record q { retry_count = q.retry_count + 1 }

  round-IsReady :
      (e : Entry) (q : ApiRequest R E) (m : Manager R E) (x : E)
      → IsReady e q m
      → q.retry_count < set_value_retry_attempts
      → (f : Entry) × (f.request ≡ e.request)
        × IsReady f (tried q) (worker_wake (worker_answer (exception x) (worker_get m)))
  unfolding worker_wake worker_answer worker_get tried
  round-IsReady e q m x h lt = (
    record { priority = q.priority; order = m.request_id_counter + 1; request = e.request },
    refl,
    ground arith,
  )

  retry-failures :
      (e : Entry) (q : ApiRequest R E) (m : Manager R E) (xs : List E) (last : List (Event R E))
      (o : Outcome R E)
      → ((f : Entry) (p : ApiRequest R E) (n : Manager R E)
          → IsReady f p n
          → p.retry_count ≡ q.retry_count + length xs
          → future_of ((run last n).requests f.request) ≡ some o)
      → IsReady e q m
      → q.retry_count + length xs ≤ set_value_retry_attempts
      → future_of ((run (failures xs ++ last) m).requests e.request) ≡ some o
  unfolding run step tried
  retry-failures e q m [] last o finish h le = finish e q m h (omega arith)
  retry-failures e q m (x ∷ xs) last o finish h le =
      let (f, same, ready) = round-IsReady e q m x h (omega arith) in
      subst
        (λ r.
          future_of (
            (run (failures xs ++ last)
                (worker_wake (worker_answer (exception x) (worker_get m)))).requests
              r)
          ≡ some o)
        same
        (retry-failures f (tried q) (worker_wake (worker_answer (exception x) (worker_get m))) xs
          last o (λ g p n ready' count. finish g p n ready' (omega arith)) ready (omega arith))

  raise_at_limit :
      (f : Entry) (p : ApiRequest R E) (n : Manager R E) (x : E)
      → IsReady f p n
      → p.retry_count ≡ set_value_retry_attempts
      → future_of ((worker_answer (exception x) (worker_get n)).requests f.request)
        ≡ some (raised x)
  unfolding worker_answer worker_get
  raise_at_limit f p n x h limit = ground arith

  return_at_once :
      (f : Entry) (p : ApiRequest R E) (n : Manager R E) (v : R)
      → IsReady f p n
      → future_of ((worker_answer (result v) (worker_get n)).requests f.request) ≡ some (returned v)
  unfolding worker_answer worker_get
  return_at_once f p n v h = ground arith

  -- A SET that is not superseded, not done and alone in the queue of a waiting worker, and that
  -- fails once for each attempt left of set_value_retry_attempts, with a sleep after each, raises
  -- the error of the execution that comes next to its caller if that one fails too.
  pub retries_then_raises :
      (e : Entry) (q : ApiRequest R E) (m : Manager R E) (xs : List E) (x : E)
      → IsReady e q m
      → q.retry_count + length xs ≡ set_value_retry_attempts
      → future_of ((run (failures xs ++ get ∷ answer (exception x) ∷ []) m).requests e.request)
        ≡ some (raised x)
  unfolding run step
  retries_then_raises e q m xs x h all =
      retry-failures e q m xs (get ∷ answer (exception x) ∷ []) (raised x)
        (λ f p n ready count. raise_at_limit f p n x ready (count ∙ all)) h (omega arith)

  -- A SET that is not superseded, not done and alone in the queue of a waiting worker returns the
  -- value of its first successful execution to its caller, after any number of failures that the
  -- retry limit allows.
  pub retries_then_returns :
      (e : Entry) (q : ApiRequest R E) (m : Manager R E) (xs : List E) (v : R)
      → IsReady e q m
      → q.retry_count + length xs ≤ set_value_retry_attempts
      → future_of ((run (failures xs ++ get ∷ answer (result v) ∷ []) m).requests e.request)
        ≡ some (returned v)
  unfolding run step
  retries_then_returns e q m xs v h le =
      retry-failures e q m xs (get ∷ answer (result v) ∷ []) (returned v)
        (λ f p n ready count. return_at_once f p n v ready) h le
