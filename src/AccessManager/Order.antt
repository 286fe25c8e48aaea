-- ===== src/AccessManager/Order.antt =====
-- The order in which the worker takes requests:
-- custom_components/hdg_boiler/helpers/api_access_manager.py
use mathlib.Core.Path.{subst}
use hdg_bavaria_homeassistan.Prelude.{
  ℕ, ◌+◌, ◌≡◌, refl, false, Option, none, some, List, [], ◌∷◌, arith, Bool-cases, inl, inr,
}
use hdg_bavaria_homeassistan.Models.{HdgCommand, is_set_node}
use hdg_bavaria_homeassistan.AccessManager.{
  ApiPriority, Entry, ApiRequest, Manager, Worker, waiting, executing, sleeping, Outcome, Answer,
  resolve, submit_when, existing_request, create_and_queue_request, supersede, run_callback,
  worker_get, get_from, take_request, worker_answer, wake_from, requeue, drain_entry, drain_entries,
  cancelled, init_manager,
}
use hdg_bavaria_homeassistan.AccessManager.Events.{
  Event, submit, get, answer, wake, callback, cancel, begin, halt, drain, step, run,
}
use hdg_bavaria_homeassistan.AccessManager.Sorted.{
  BeforeAll, IsSorted, IsBelow, IsBelow-mono, IsBelow-insert_entry, IsSorted-insert_entry,
}

module _ {R E : Type 0} where
  pub record IsOrdered (m : Manager R E) : Type 0 where
    pub sorted : IsSorted m.request_queue
    pub below : IsBelow m.request_id_counter m.request_queue

  -- An operation that leaves the queue and the counter alone.
  record SameQueue (m n : Manager R E) : Type 0 where
    queue : n.request_queue ≡ m.request_queue
    counter : n.request_id_counter ≡ m.request_id_counter

  SameQueue-IsOrdered : (m n : Manager R E) → SameQueue m n → IsOrdered m → IsOrdered n
  SameQueue-IsOrdered m n e h = record {
    sorted = rw e.queue h.sorted;
    below = rw (e.queue, e.counter) h.below;
  }

  resolve-same : (s : ℕ) (o : Outcome R E) (m : Manager R E) → SameQueue m (resolve s o m)
  unfolding resolve
  resolve-same s o m = ground arith

  supersede-same : (s : ℕ) (m : Manager R E) → SameQueue m (supersede s m)
  unfolding supersede
  supersede-same s m = ground arith

  answer-same : (a : Answer R E) (m : Manager R E) → SameQueue m (worker_answer a m)
  unfolding worker_answer
  answer-same a m = ground arith

  callback-same : (m : Manager R E) → SameQueue m (run_callback m)
  unfolding run_callback
  callback-same m = ground arith

  create-IsOrdered :
      (p : ApiPriority) (c : HdgCommand) (m : Manager R E)
      → IsOrdered m
      → IsOrdered (create_and_queue_request p c m)
  unfolding create_and_queue_request
  create-IsOrdered p c m h =
      let e : Entry = record {
        priority = p;
        order = m.request_id_counter + 1;
        request = m.request_id_counter + 1;
      } in
      record {
        sorted =
            IsSorted-insert_entry e m.request_id_counter m.request_queue (omega arith) h.below
              h.sorted;
        below = IsBelow-insert_entry (m.request_id_counter + 1) e m.request_queue (omega arith) (
            IsBelow-mono m.request_id_counter (m.request_id_counter + 1) m.request_queue
              (omega arith) h.below);
      }

  submit_when-IsOrdered :
      (o : Option ℕ) (p : ApiPriority) (c : HdgCommand) (m : Manager R E)
      → IsOrdered m
      → IsOrdered (submit_when o p c m).1
  unfolding submit_when
  submit_when-IsOrdered none p c m h = create-IsOrdered p c m h
  submit_when-IsOrdered (some s) p c m h = elim (Bool-cases (is_set_node c.cmd_type)) [
    | inl set ↦ rw set (
        create-IsOrdered p c (supersede s m)
          (SameQueue-IsOrdered m (supersede s m) (supersede-same s m) h))
    | inr read ↦ rw read h
  ]

  take-IsOrdered :
      (r : ℕ) (o : Option (ApiRequest R E)) (m : Manager R E)
      → IsOrdered m
      → IsOrdered (take_request r o m)
  unfolding take_request
  take-IsOrdered r none m h = h
  take-IsOrdered r (some q) m h = record {
    sorted = ground (arith, h.sorted);
    below = ground (arith, h.below);
  }

  get_from-IsOrdered :
      (w : Worker) (q : List Entry) (m : Manager R E)
      → m.request_queue ≡ q
      → IsOrdered m
      → IsOrdered (get_from w q m)
  unfolding get_from
  get_from-IsOrdered waiting (e ∷ rest) m eq h =
      take-IsOrdered e.request (m.requests e.request) (record m { request_queue = rest })
        (record {
          sorted = (subst (λ q. IsSorted q) eq h.sorted).1;
          below = (subst (λ q. IsBelow m.request_id_counter q) eq h.below).1;
        })
  get_from-IsOrdered _ _ m eq h = h

  requeue-IsOrdered :
      (s : ℕ) (o : Option (ApiRequest R E)) (m : Manager R E)
      → IsOrdered m
      → IsOrdered (requeue s o m)
  unfolding requeue
  requeue-IsOrdered s none m h = record { sorted = h.sorted; below = h.below }
  requeue-IsOrdered s (some q) m h =
      let e : Entry = record {
        priority = q.priority;
        order = m.request_id_counter + 1;
        request = s;
      } in
      record {
        sorted =
            IsSorted-insert_entry e m.request_id_counter m.request_queue (omega arith) h.below
              h.sorted;
        below = IsBelow-insert_entry (m.request_id_counter + 1) e m.request_queue (omega arith) (
            IsBelow-mono m.request_id_counter (m.request_id_counter + 1) m.request_queue
              (omega arith) h.below);
      }

  wake_from-IsOrdered : (w : Worker) (m : Manager R E) → IsOrdered m → IsOrdered (wake_from w m)
  unfolding wake_from
  wake_from-IsOrdered (sleeping s) m h = requeue-IsOrdered s (m.requests s) m h
  wake_from-IsOrdered _ m h = h

  drain_entries-IsOrdered : (q : List Entry) (m : Manager R E) → IsOrdered (drain_entries q m)
  unfolding drain_entries
  drain_entries-IsOrdered [] m = record { sorted = tt; below = tt }
  drain_entries-IsOrdered (x ∷ q) m = drain_entries-IsOrdered q (drain_entry x m)

  step-IsOrdered : (e : Event R E) (m : Manager R E) → IsOrdered m → IsOrdered (step e m)
  unfolding step
  step-IsOrdered (submit p c) m h = submit_when-IsOrdered (existing_request c m) p c m h
  step-IsOrdered get m h = get_from-IsOrdered m.worker m.request_queue m refl h
  step-IsOrdered (answer a) m h = SameQueue-IsOrdered m (worker_answer a m) (answer-same a m) h
  step-IsOrdered wake m h = wake_from-IsOrdered m.worker m h
  step-IsOrdered callback m h = SameQueue-IsOrdered m (run_callback m) (callback-same m) h
  step-IsOrdered (cancel r) m h =
      SameQueue-IsOrdered m (resolve r cancelled m) (resolve-same r cancelled m) h
  step-IsOrdered begin m h = record { sorted = h.sorted; below = h.below }
  step-IsOrdered halt m h = record { sorted = h.sorted; below = h.below }
  step-IsOrdered drain m h = drain_entries-IsOrdered m.request_queue m

  run-IsOrdered : (es : List (Event R E)) (m : Manager R E) → IsOrdered m → IsOrdered (run es m)
  unfolding run
  run-IsOrdered [] m h = h
  run-IsOrdered (e ∷ es) m h = run-IsOrdered es (step e m) (step-IsOrdered e m h)

  init-IsOrdered : IsOrdered (init_manager {R = R} {E = E})
  init-IsOrdered = record { sorted = tt; below = tt }

  -- After any sequence of events from the first state, if the worker waits and the entry at the
  -- front of the queue leads to a request that is not superseded, the worker takes that request,
  -- the rest of the queue stays as it is, and the entry comes before every other in the order by
  -- priority and then by number.
  pub worker_takes_most_urgent :
      (es : List (Event R E)) (e : Entry) (rest : List Entry) (q : ApiRequest R E)
      → (run es init_manager).request_queue ≡ e ∷ rest
      → (run es init_manager).worker ≡ waiting
      → (run es init_manager).requests e.request ≡ some q
      → q.is_superseded ≡ false
      → let m = worker_get (run es init_manager) in
        (m.worker ≡ executing e.request) × (m.request_queue ≡ rest) × BeforeAll e rest
  unfolding worker_get
  worker_takes_most_urgent es e rest q front idle found current = (
    ground arith,
    ground arith,
    (subst (λ l. IsSorted l) front (run-IsOrdered es init_manager init-IsOrdered).sorted).0,
  )
