-- ===== src/AccessManager/Invariant/Kept.antt =====
-- The events, one by one, and well-formed states of
-- custom_components/hdg_boiler/helpers/api_access_manager.py.
use hdg_bavaria_homeassistan.Prelude.{refl, Option, List, [], ◌∷◌, arith}
use hdg_bavaria_homeassistan.AccessManager.{
  Entry, ApiRequest, Manager, Answer, resolve, run_callback, start, worker_get, worker_answer,
  worker_wake, forget, drain_entry, drain_entries, cancel_worker, cancelled, shut_down,
  init_manager,
}
use hdg_bavaria_homeassistan.AccessManager.Events.{
  Event, submit, get, answer, wake, callback, cancel, begin, halt, drain, step, run,
}
use hdg_bavaria_homeassistan.AccessManager.Invariant.{
  IsWellFormed, resolve-IsWellFormed, submit-IsWellFormed,
}

module _ {R E : Type 0} where
  get-IsWellFormed : (m : Manager R E) → IsWellFormed m → IsWellFormed (worker_get m)
  unfolding worker_get
  get-IsWellFormed m h = record {
    fresh = λ r lt. ground (arith, h.fresh r);
    current = λ key r e. ground (arith, h.current key r);
    bounded = λ r. ground (arith, h.bounded r);
  }

  answer-IsWellFormed :
      (a : Answer R E) (m : Manager R E) → IsWellFormed m → IsWellFormed (worker_answer a m)
  unfolding worker_answer
  answer-IsWellFormed a m h = record {
    fresh = λ r lt. ground (arith, h.fresh r);
    current = λ key r e. ground (arith, h.current key r);
    bounded = λ r. ground (arith, h.bounded r);
  }

  wake-IsWellFormed : (m : Manager R E) → IsWellFormed m → IsWellFormed (worker_wake m)
  unfolding worker_wake
  wake-IsWellFormed m h = record {
    fresh = λ r lt. ground (arith, h.fresh r);
    current = λ key r e. ground (arith, h.current key r);
    bounded = λ r. ground (arith, h.bounded r);
  }

  callback-IsWellFormed : (m : Manager R E) → IsWellFormed m → IsWellFormed (run_callback m)
  unfolding run_callback
  callback-IsWellFormed m h = record {
    fresh = λ r lt. ground (arith, h.fresh r);
    current = λ key r e. ground (arith, h.current key r);
    bounded = λ r. ground (arith, h.bounded r);
  }

  forget-IsWellFormed :
      (o : Option (ApiRequest R E)) (m : Manager R E)
      → IsWellFormed m
      → IsWellFormed (record m { pending_requests = forget o m.pending_requests })
  unfolding forget
  forget-IsWellFormed o m h = record {
    fresh = λ r lt. h.fresh r lt;
    current = λ key r e. ground (arith, h.current key r);
    bounded = λ r. h.bounded r;
  }

  drain_entries-IsWellFormed :
      (q : List Entry) (m : Manager R E) → IsWellFormed m → IsWellFormed (drain_entries q m)
  unfolding drain_entries
  drain_entries-IsWellFormed [] m h = record {
    fresh = h.fresh;
    current = h.current;
    bounded = h.bounded;
  }
  drain_entries-IsWellFormed (x ∷ q) m h = drain_entries-IsWellFormed q (drain_entry x m) (
      unfold drain_entry in
      forget-IsWellFormed (m.requests x.request) (resolve x.request shut_down m)
        (resolve-IsWellFormed x.request shut_down m h))

  start-IsWellFormed : (m : Manager R E) → IsWellFormed m → IsWellFormed (start m)
  unfolding start
  start-IsWellFormed m h = record { fresh = h.fresh; current = h.current; bounded = h.bounded }

  halt-IsWellFormed : (m : Manager R E) → IsWellFormed m → IsWellFormed (cancel_worker m)
  unfolding cancel_worker
  halt-IsWellFormed m h = record { fresh = h.fresh; current = h.current; bounded = h.bounded }

  step-IsWellFormed : (e : Event R E) (m : Manager R E) → IsWellFormed m → IsWellFormed (step e m)
  unfolding step
  step-IsWellFormed (submit p c) m h = submit-IsWellFormed p c m h
  step-IsWellFormed get m h = get-IsWellFormed m h
  step-IsWellFormed (answer a) m h = answer-IsWellFormed a m h
  step-IsWellFormed wake m h = wake-IsWellFormed m h
  step-IsWellFormed callback m h = callback-IsWellFormed m h
  step-IsWellFormed (cancel r) m h = resolve-IsWellFormed r cancelled m h
  step-IsWellFormed begin m h = start-IsWellFormed m h
  step-IsWellFormed halt m h = halt-IsWellFormed m h
  step-IsWellFormed drain m h = drain_entries-IsWellFormed m.request_queue m h

  -- Every sequence of events keeps a state well-formed: ids above the counter are unused, the
  -- pending table leads for each key to a request made for that key that has not been superseded,
  -- and no request is tried again more often than the limit.
  pub run-IsWellFormed :
      (es : List (Event R E)) (m : Manager R E) → IsWellFormed m → IsWellFormed (run es m)
  unfolding run
  run-IsWellFormed [] m h = h
  run-IsWellFormed (e ∷ es) m h = run-IsWellFormed es (step e m) (step-IsWellFormed e m h)

  pub init-IsWellFormed : IsWellFormed (init_manager {R = R} {E = E})
  init-IsWellFormed = record {
    fresh = λ r lt. refl;
    current = λ key r e. cc;
    bounded = λ r. omega arith;
  }
