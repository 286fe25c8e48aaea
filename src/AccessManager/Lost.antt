-- ===== src/AccessManager/Lost.antt =====
-- Futures and the events that could end them:
-- custom_components/hdg_boiler/helpers/api_access_manager.py
use hdg_bavaria_homeassistan.Prelude.{
  ℕ, ◌+◌, ◌≤◌, ◌≡◌, ◌≢◌, refl, true, false, Option, none, some, List, [], ◌∷◌, arith,
}
use hdg_bavaria_homeassistan.Models.{HdgCommand}
use hdg_bavaria_homeassistan.AccessManager.{
  ApiPriority, cancelled, Entry, existing_request, requeue, wake_from, shut_down, stop, ApiRequest,
  Manager, Worker, waiting, sleeping, Outcome, Answer, resolve, submit_request, submit_when,
  create_and_queue_request, supersede, run_callback, start, worker_get, worker_answer, worker_wake,
  cancel_worker, drain_entries, drain_entry, is_queued, is_queued-insert_entry,
}
use hdg_bavaria_homeassistan.AccessManager.Events.{
  Event, submit, get, answer, wake, callback, cancel, begin, halt, drain, holds, step, run, is_open,
}

module _ {R E : Type 0} where
  abbrev IsLost : ℕ → Manager R E → Type 0
  IsLost r m =
      (r ≤ m.request_id_counter)
      × (is_open (m.requests r) ≡ true)
      × (is_queued r m.request_queue ≡ false)
      × (holds m.worker r ≡ false)

  resolve-IsLost :
      (r s : ℕ) (o : Outcome R E) (m : Manager R E) → s ≢ r → IsLost r m → IsLost r (resolve s o m)
  unfolding resolve
  resolve-IsLost r s o m ne h = ground arith

  create-IsLost :
      (r : ℕ) (p : ApiPriority) (c : HdgCommand) (m : Manager R E)
      → IsLost r m
      → IsLost r (create_and_queue_request p c m)
  unfolding create_and_queue_request
  create-IsLost r p c m h = ground (
    arith,
    is_queued-insert_entry r
        (record {
          priority = p;
          order = m.request_id_counter + 1;
          request = m.request_id_counter + 1;
        })
        m.request_queue,
  )

  supersede-IsLost : (r s : ℕ) (m : Manager R E) → IsLost r m → IsLost r (supersede s m)
  unfolding supersede
  supersede-IsLost r s m h = ground arith

  submit_when-IsLost :
      (r : ℕ) (o : Option ℕ) (p : ApiPriority) (c : HdgCommand) (m : Manager R E)
      → IsLost r m
      → IsLost r (submit_when o p c m).1
  unfolding submit_when
  submit_when-IsLost r none p c m h = create-IsLost r p c m h
  submit_when-IsLost r (some s) p c m h =
      ground (arith, create-IsLost r p c (supersede s m), supersede-IsLost r s m)

  submit-IsLost :
      (r : ℕ) (p : ApiPriority) (c : HdgCommand) (m : Manager R E)
      → IsLost r m
      → IsLost r (submit_request p c m).1
  unfolding submit_request
  submit-IsLost r p c m h = submit_when-IsLost r (existing_request c m) p c m h

  get-IsLost : (r : ℕ) (m : Manager R E) → IsLost r m → IsLost r (worker_get m)
  unfolding worker_get
  get-IsLost r m h = ground arith

  answer-IsLost :
      (r : ℕ) (a : Answer R E) (m : Manager R E) → IsLost r m → IsLost r (worker_answer a m)
  unfolding worker_answer
  answer-IsLost r a m h = ground arith

  requeue-IsLost :
      (r s : ℕ) (o : Option (ApiRequest R E)) (m : Manager R E)
      → s ≢ r
      → IsLost r m
      → IsLost r (requeue s o m)
  unfolding requeue
  requeue-IsLost r s none m ne h = ground arith
  requeue-IsLost r s (some q) m ne h = ground (
    arith,
    is_queued-insert_entry r
        (record { priority = q.priority; order = m.request_id_counter + 1; request = s })
        m.request_queue,
  )

  wake_from-IsLost :
      (r : ℕ) (w : Worker) (m : Manager R E)
      → holds w r ≡ false
      → IsLost r m
      → IsLost r (wake_from w m)
  unfolding wake_from
  wake_from-IsLost r (sleeping s) m e h = requeue-IsLost r s (m.requests s) m (ground arith) h
  wake_from-IsLost r _ m e h = h

  wake-IsLost : (r : ℕ) (m : Manager R E) → IsLost r m → IsLost r (worker_wake m)
  unfolding worker_wake
  wake-IsLost r m h = wake_from-IsLost r m.worker m h.3 h

  callback-IsLost : (r : ℕ) (m : Manager R E) → IsLost r m → IsLost r (run_callback m)
  unfolding run_callback
  callback-IsLost r m h = ground arith

  begin-IsLost : (r : ℕ) (m : Manager R E) → IsLost r m → IsLost r (start m)
  unfolding start
  begin-IsLost r m h = ground arith

  drain_entry-IsLost :
      (r : ℕ) (x : Entry) (m : Manager R E)
      → x.request ≢ r
      → IsLost r m
      → IsLost r (drain_entry x m)
  unfolding drain_entry
  drain_entry-IsLost r x m ne h = ground (arith, resolve-IsLost r x.request shut_down m)

  drain_entries-IsLost :
      (r : ℕ) (q : List Entry) (m : Manager R E)
      → is_queued r q ≡ false
      → IsLost r m
      → IsLost r (drain_entries q m)
  unfolding drain_entries
  drain_entries-IsLost r [] m e h = ground arith
  drain_entries-IsLost r (x ∷ q) m e h =
      drain_entries-IsLost r q (drain_entry x m) (ground arith)
        (drain_entry-IsLost r x m (ground arith) h)

  -- An event other than that a caller of this request is cancelled.
  abbrev Spares : ℕ → Event R E → Type 0
  Spares r (cancel s) = s ≢ r
  Spares r _ = Unit

  abbrev AllSpare : ℕ → List (Event R E) → Type 0
  AllSpare r [] = Unit
  AllSpare r (e ∷ es) = Spares r e × AllSpare r es

  step-IsLost :
      (r : ℕ) (e : Event R E) (m : Manager R E) → Spares r e → IsLost r m → IsLost r (step e m)
  unfolding step
  step-IsLost r (submit p c) m s h = submit-IsLost r p c m h
  step-IsLost r get m s h = get-IsLost r m h
  step-IsLost r (answer a) m s h = answer-IsLost r a m h
  step-IsLost r wake m s h = wake-IsLost r m h
  step-IsLost r callback m s h = callback-IsLost r m h
  step-IsLost r (cancel t) m s h = resolve-IsLost r t cancelled m s h
  step-IsLost r begin m s h = begin-IsLost r m h
  step-IsLost r halt m s h = ground arith
  step-IsLost r drain m s h = drain_entries-IsLost r m.request_queue m h.2 h

  run-IsLost :
      (r : ℕ) (es : List (Event R E)) (m : Manager R E)
      → AllSpare r es
      → IsLost r m
      → IsLost r (run es m)
  unfolding run
  run-IsLost r [] m s h = h
  run-IsLost r (e ∷ es) m s h = run-IsLost r es (step e m) s.1 (step-IsLost r e m s.0 h)

  skip-IsLost :
      (e : Entry) (rest : List Entry) (q : ApiRequest R E) (m : Manager R E)
      → m.worker ≡ waiting
      → m.request_queue ≡ e ∷ rest
      → is_queued e.request rest ≡ false
      → m.requests e.request ≡ some q
      → q.is_superseded ≡ true
      → q.future ≡ none
      → e.request ≤ m.request_id_counter
      → IsLost e.request (worker_get m)
  unfolding worker_get
  skip-IsLost e rest q m w front once found old unanswered known = ground arith

  -- When the worker takes a superseded request that is not done and not queued again, its future
  -- is never done, whatever events follow, unless a caller of that request is cancelled.
  pub superseded_never_answered :
      (e : Entry) (rest : List Entry) (q : ApiRequest R E) (m : Manager R E) (es : List (Event R E))
      → m.worker ≡ waiting
      → m.request_queue ≡ e ∷ rest
      → is_queued e.request rest ≡ false
      → m.requests e.request ≡ some q
      → q.is_superseded ≡ true
      → q.future ≡ none
      → e.request ≤ m.request_id_counter
      → AllSpare e.request es
      → is_open ((run (get ∷ es) m).requests e.request) ≡ true
  unfolding run step
  superseded_never_answered e rest q m es w front once found old unanswered known spare =
      (run-IsLost e.request es (worker_get m) spare
        (skip-IsLost e rest q m w front once found old unanswered known)).1

  -- When the manager is stopped while the worker holds a request that is not done and not queued,
  -- the future of that request is never done, whatever events follow, unless a caller of that
  -- request is cancelled.
  pub stop_loses_held :
      (r : ℕ) (m : Manager R E) (es : List (Event R E))
      → holds m.worker r ≡ true
      → is_open (m.requests r) ≡ true
      → is_queued r m.request_queue ≡ false
      → r ≤ m.request_id_counter
      → AllSpare r es
      → is_open ((run es (stop m)).requests r) ≡ true
  unfolding stop
  stop_loses_held r m es held unanswered off known spare =
      (run-IsLost r es (stop m) spare (
        drain_entries-IsLost r m.request_queue (cancel_worker m) off
          (known, unanswered, off, refl))).1
