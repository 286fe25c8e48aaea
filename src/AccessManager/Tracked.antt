-- ===== src/AccessManager/Tracked.antt =====
-- Where the requests are that have still to be answered:
-- custom_components/hdg_boiler/helpers/api_access_manager.py
use hdg_bavaria_homeassistan.Prelude.{
  ℕ, ◌+◌, ◌≡◌, ◌≢◌, refl, Bool, true, false, not, ◌&&◌, ◌||◌, Option, none, some, List, [], ◌∷◌,
  ◌∙◌, arith, Bool-cases, inl, inr,
}
use hdg_bavaria_homeassistan.Models.{HdgCommand, is_set_node}
use hdg_bavaria_homeassistan.AccessManager.{
  ApiPriority, Entry, ApiRequest, Manager, Worker, sleeping, Outcome, Answer, resolve, submit_when,
  existing_request, create_and_queue_request, supersede, run_callback, start, worker_get,
  worker_answer, worker_wake, wake_from, requeue, drain_entry, drain_entries, cancelled,
  cancel_worker, init_manager, is_queued, is_queued-insert_entry,
}
use hdg_bavaria_homeassistan.AccessManager.Events.{
  Event, submit, get, answer, wake, callback, cancel, begin, halt, drain, step, run, holds,
}

module _ {R E : Type 0} where
  -- Some caller still waits for this request, and no newer one has replaced it.
  abbrev is_live : Option (ApiRequest R E) → Bool
  is_live none = false
  is_live (some q) = not q.is_superseded && elim q.future [ none ↦ true | some _ ↦ false ]

  pub record IsTracked (m : Manager R E) : Type 0 where
    pub at :
        (r : ℕ)
        → is_live (m.requests r) ≡ true
        → (is_queued r m.request_queue || holds m.worker r) ≡ true

  resolve-IsTracked :
      (s : ℕ) (o : Outcome R E) (m : Manager R E) → IsTracked m → IsTracked (resolve s o m)
  unfolding resolve
  resolve-IsTracked s o m h = record { at = λ r l. ground (arith, h.at r) }

  create-IsTracked :
      (p : ApiPriority) (c : HdgCommand) (m : Manager R E)
      → IsTracked m
      → IsTracked (create_and_queue_request p c m)
  unfolding create_and_queue_request
  create-IsTracked p c m h = record {
    at = λ r l. ground (
      arith,
      h.at r,
      is_queued-insert_entry r
          (record {
            priority = p;
            order = m.request_id_counter + 1;
            request = m.request_id_counter + 1;
          })
          m.request_queue,
    );
  }

  supersede-IsTracked : (s : ℕ) (m : Manager R E) → IsTracked m → IsTracked (supersede s m)
  unfolding supersede
  supersede-IsTracked s m h = record { at = λ r l. ground (arith, h.at r) }

  submit_when-IsTracked :
      (o : Option ℕ) (p : ApiPriority) (c : HdgCommand) (m : Manager R E)
      → IsTracked m
      → IsTracked (submit_when o p c m).1
  unfolding submit_when
  submit_when-IsTracked none p c m h = create-IsTracked p c m h
  submit_when-IsTracked (some s) p c m h = elim (Bool-cases (is_set_node c.cmd_type)) [
    | inl set ↦ rw set (create-IsTracked p c (supersede s m) (supersede-IsTracked s m h))
    | inr read ↦ rw read h
  ]

  get-IsTracked : (m : Manager R E) → IsTracked m → IsTracked (worker_get m)
  unfolding worker_get
  get-IsTracked m h = record { at = λ r l. ground (arith, h.at r) }

  answer-IsTracked :
      (a : Answer R E) (m : Manager R E) → IsTracked m → IsTracked (worker_answer a m)
  unfolding worker_answer
  answer-IsTracked a m h = record { at = λ r l. ground (arith, h.at r) }

  requeue-IsTracked :
      (s : ℕ) (o : Option (ApiRequest R E)) (m : Manager R E)
      → m.requests s ≡ o
      → m.worker ≡ sleeping s
      → IsTracked m
      → IsTracked (requeue s o m)
  unfolding requeue
  requeue-IsTracked s none m e w h = record { at = λ r l. ground (arith, h.at r) }
  requeue-IsTracked s (some q) m e w h = record {
    at = λ r l. ground (
      arith,
      h.at r,
      is_queued-insert_entry r
          (record { priority = q.priority; order = m.request_id_counter + 1; request = s })
          m.request_queue,
    );
  }

  wake_from-IsTracked :
      (w : Worker) (m : Manager R E) → m.worker ≡ w → IsTracked m → IsTracked (wake_from w m)
  unfolding wake_from
  wake_from-IsTracked (sleeping s) m e h = requeue-IsTracked s (m.requests s) m refl e h
  wake_from-IsTracked _ m e h = h

  wake-IsTracked : (m : Manager R E) → IsTracked m → IsTracked (worker_wake m)
  unfolding worker_wake
  wake-IsTracked m h = wake_from-IsTracked m.worker m refl h

  callback-IsTracked : (m : Manager R E) → IsTracked m → IsTracked (run_callback m)
  unfolding run_callback
  callback-IsTracked m h = record { at = λ r l. ground (arith, h.at r) }

  start-IsTracked : (m : Manager R E) → IsTracked m → IsTracked (start m)
  unfolding start
  start-IsTracked m h = record { at = λ r l. ground (arith, h.at r) }

  -- What is live after a round of the drain loop was live before, and is another request.
  live-drain_entry :
      (x : Entry) (m : Manager R E) (r : ℕ)
      → is_live ((drain_entry x m).requests r) ≡ true
      → (is_live (m.requests r) ≡ true) × (x.request ≢ r)
  unfolding drain_entry
  live-drain_entry x m r l = ground arith

  live-drain_entries :
      (q : List Entry) (m : Manager R E) (r : ℕ)
      → is_live ((drain_entries q m).requests r) ≡ true
      → (is_live (m.requests r) ≡ true) × (is_queued r q ≡ false)
  unfolding drain_entries
  live-drain_entries [] m r l = (l, refl)
  live-drain_entries (x ∷ q) m r l =
      ground (arith, live-drain_entries q (drain_entry x m) r l, live-drain_entry x m r)

  worker-drain_entry : (x : Entry) (m : Manager R E) → (drain_entry x m).worker ≡ m.worker
  unfolding drain_entry
  worker-drain_entry x m = ground arith

  worker-drain_entries : (q : List Entry) (m : Manager R E) → (drain_entries q m).worker ≡ m.worker
  unfolding drain_entries
  worker-drain_entries [] m = refl
  worker-drain_entries (x ∷ q) m = worker-drain_entries q (drain_entry x m) ∙ worker-drain_entry x m

  drain-IsTracked : (m : Manager R E) → IsTracked m → IsTracked (drain_entries m.request_queue m)
  drain-IsTracked m h = record {
    at = λ r l. ground (
      arith,
      h.at r,
      live-drain_entries m.request_queue m r l,
      worker-drain_entries m.request_queue m,
    );
  }

  halt-IsTracked :
      (m : Manager R E)
      → ((r : ℕ) → holds m.worker r ≡ false)
      → IsTracked m
      → IsTracked (step halt m)
  unfolding step cancel_worker
  halt-IsTracked m free h = record { at = λ r l. ground (arith, h.at r, free r) }

  -- If the event is the cancellation of the worker task, the worker holds no request.
  abbrev KeepsRequest : Event R E → Manager R E → Type 0
  KeepsRequest halt m = (r : ℕ) → holds m.worker r ≡ false
  KeepsRequest _ m = Unit

  -- This is so at every event of the sequence.
  abbrev AllKeepRequest : List (Event R E) → Manager R E → Type 0
  AllKeepRequest [] m = Unit
  AllKeepRequest (e ∷ es) m = KeepsRequest e m × AllKeepRequest es (step e m)

  step-IsTracked :
      (e : Event R E) (m : Manager R E) → KeepsRequest e m → IsTracked m → IsTracked (step e m)
  unfolding step
  step-IsTracked (submit p c) m k h = submit_when-IsTracked (existing_request c m) p c m h
  step-IsTracked get m k h = get-IsTracked m h
  step-IsTracked (answer a) m k h = answer-IsTracked a m h
  step-IsTracked wake m k h = wake-IsTracked m h
  step-IsTracked callback m k h = callback-IsTracked m h
  step-IsTracked (cancel r) m k h = resolve-IsTracked r cancelled m h
  step-IsTracked begin m k h = start-IsTracked m h
  step-IsTracked halt m k h = halt-IsTracked m k h
  step-IsTracked drain m k h = drain-IsTracked m h

  -- After any sequence of events in which the worker task is cancelled only while it holds no
  -- request, from a state in which this holds, every request whose future is not done and that
  -- has not been superseded is in the queue or held by the worker: no such request is lost.
  pub run-IsTracked :
      (es : List (Event R E)) (m : Manager R E)
      → AllKeepRequest es m
      → IsTracked m
      → IsTracked (run es m)
  unfolding run
  run-IsTracked [] m k h = h
  run-IsTracked (e ∷ es) m k h = run-IsTracked es (step e m) k.1 (step-IsTracked e m k.0 h)

  pub init-IsTracked : IsTracked (init_manager {R = R} {E = E})
  init-IsTracked = record { at = λ r l. cc }
