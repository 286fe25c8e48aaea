-- ===== src/AccessManager/Invariant.antt =====
-- Well-formed states of the pending table and the requests of
-- custom_components/hdg_boiler/helpers/api_access_manager.py.
pub mod Kept
use hdg_bavaria_homeassistan.Prelude.{
  ℕ, zero, suc, ◌+◌, ◌≤◌, ◌<◌, Text, ◌≡◌, ◌≢◌, refl, Bool, true, false, not, ◌&&◌, Option, none,
  some, List, [], ◌∷◌, arith, ◌==◌, leb, text_eq, text_eq_iff, Bool-cases, inl, inr,
}
use hdg_bavaria_homeassistan.Models.{HdgCommand, is_set_node, truthy}
use hdg_bavaria_homeassistan.AccessManager.{
  ApiPriority, Entry, ApiRequest, Manager, Worker, waiting, executing, sleeping, Outcome, Answer,
  result, exception, resolve, end_future, remember, submit_request, submit_when, existing_request,
  create_and_queue_request, supersede, mark_superseded, cleanup_pending_request, run_next,
  run_callback, start, worker_get, get_from, take_request, worker_answer, answer_to, answer_request,
  fail_request, worker_wake, wake_from, requeue, forget, drain_entry, drain_entries, drain_queue,
  cancel_worker, cancelled, shut_down, raised, returned, set_value_retry_attempts, init_manager,
}
use hdg_bavaria_homeassistan.AccessManager.Events.{
  Event, submit, get, answer, wake, callback, cancel, begin, halt, drain, step, run,
}

same_key :
    (o : Option Text) (k key : Text)
    → elim o [ none ↦ false | some j ↦ text_eq j k ] ≡ true
    → elim o [ none ↦ false | some j ↦ text_eq j key ] ≡ true
    → k ≡ key
same_key none k key p q = cc
same_key (some j) k key p q = cc ((text_eq_iff j k).0 p, (text_eq_iff j key).0 q)

module _ {R E : Type 0} where
  -- A request that was made for this context key and has not been superseded.
  abbrev is_current : Text → Option (ApiRequest R E) → Bool
  is_current key none = false
  is_current key (some q) =
      not q.is_superseded
      && elim (truthy q.command.context_key) [ none ↦ false | some k ↦ text_eq k key ]

  abbrev pub retries : Option (ApiRequest R E) → ℕ
  retries none = 0
  retries (some q) = q.retry_count

  pub record IsWellFormed (m : Manager R E) : Type 0 where
    -- ids are given out in order
    pub fresh : (r : ℕ) → m.request_id_counter < r → m.requests r ≡ none
    -- the pending table leads to the newest request for each key
    pub current :
        (key : Text) (r : ℕ)
        → m.pending_requests key ≡ some r
        → is_current key (m.requests r) ≡ true
    -- no request is tried again more often than the limit says
    pub bounded : (r : ℕ) → retries (m.requests r) ≤ set_value_retry_attempts

  pub resolve-IsWellFormed :
      (s : ℕ) (o : Outcome R E) (m : Manager R E) → IsWellFormed m → IsWellFormed (resolve s o m)
  unfolding resolve
  resolve-IsWellFormed s o m h = record {
    fresh = λ r lt. ground (arith, h.fresh r);
    current = λ key r e. ground (arith, h.current key r);
    bounded = λ r. ground (arith, h.bounded r);
  }

  -- What is left of `current` after `supersede`: another key's request is current.
  abbrev IsCurrentBeside : Option Text → Manager R E → Type 0
  IsCurrentBeside o m =
      (key : Text) (r : ℕ)
      → o ≢ some key
      → m.pending_requests key ≡ some r
      → is_current key (m.requests r) ≡ true

  remember-current :
      (o : Option Text) (p : ApiPriority) (c : HdgCommand) (m : Manager R E) (key : Text) (r : ℕ)
      → truthy c.context_key ≡ o
      → ((r : ℕ) → m.request_id_counter < r → m.requests r ≡ none)
      → IsCurrentBeside o m
      → remember o (m.request_id_counter + 1) m.pending_requests key ≡ some r
      → is_current key ((create_and_queue_request p c m).requests r) ≡ true
  unfolding create_and_queue_request
  remember-current none p c m key r o fresh beside e = ground (arith, beside key r, fresh r)
  remember-current (some k) p c m key r o fresh beside e =
      ground (arith, beside key r, fresh r, text_eq_iff k key)

  create-IsWellFormed :
      (p : ApiPriority) (c : HdgCommand) (m : Manager R E)
      → ((r : ℕ) → m.request_id_counter < r → m.requests r ≡ none)
      → IsCurrentBeside (truthy c.context_key) m
      → ((r : ℕ) → retries (m.requests r) ≤ set_value_retry_attempts)
      → IsWellFormed (create_and_queue_request p c m)
  unfolding create_and_queue_request
  create-IsWellFormed p c m fresh beside bounded = record {
    fresh = λ r lt. ground (arith, fresh r);
    current = λ key r e. remember-current (truthy c.context_key) p c m key r refl fresh beside e;
    bounded = λ r. ground (arith, bounded r);
  }

  is_current-injective :
      (k key : Text) (o : Option (ApiRequest R E))
      → is_current k o ≡ true
      → is_current key o ≡ true
      → k ≡ key
  is_current-injective k key none p q = cc
  is_current-injective k key (some q) c d =
      same_key (truthy q.command.context_key) k key (ground arith) (ground arith)

  mark-beside :
      (k : Text) (s : ℕ) (o : Option (ApiRequest R E)) (m : Manager R E)
      → IsWellFormed m
      → m.requests s ≡ o
      → m.pending_requests k ≡ some s
      → IsCurrentBeside (some k) (mark_superseded s o m)
  unfolding mark_superseded
  mark-beside k s none m h at_s found key r ne e = h.current key r e
  mark-beside k s (some q) m h at_s found key r ne e =
      ground (arith, h.current key r, h.current k s, is_current-injective k key (m.requests s))

  supersede-beside :
      (k : Text) (s : ℕ) (m : Manager R E)
      → IsWellFormed m
      → m.pending_requests k ≡ some s
      → IsCurrentBeside (some k) (supersede s m)
  unfolding supersede
  supersede-beside k s m h found key r ne e =
      mark-beside k s (m.requests s) m h refl found key r ne e

  counter-supersede :
      (s : ℕ) (m : Manager R E) → (supersede s m).request_id_counter ≡ m.request_id_counter
  unfolding supersede
  counter-supersede s m = ground arith

  supersede-fresh :
      (s : ℕ) (m : Manager R E) (r : ℕ)
      → IsWellFormed m
      → m.request_id_counter < r
      → (supersede s m).requests r ≡ none
  unfolding supersede
  supersede-fresh s m r h lt = ground (arith, h.fresh r)

  supersede-bounded :
      (s : ℕ) (m : Manager R E) (r : ℕ)
      → IsWellFormed m
      → retries ((supersede s m).requests r) ≤ set_value_retry_attempts
  unfolding supersede
  supersede-bounded s m r h = ground (arith, h.bounded r)

  looked_up :
      (o : Option Text) (s : ℕ) (m : Manager R E)
      → IsWellFormed m
      → elim o [ none ↦ none | some key ↦ m.pending_requests key ] ≡ some s
      → IsCurrentBeside o (supersede s m)
  looked_up none s m h e = cc
  looked_up (some k) s m h e = supersede-beside k s m h e

  replaced-IsWellFormed :
      (s : ℕ) (p : ApiPriority) (c : HdgCommand) (m : Manager R E)
      → IsWellFormed m
      → existing_request c m ≡ some s
      → IsWellFormed (create_and_queue_request p c (supersede s m))
  unfolding existing_request
  replaced-IsWellFormed s p c m h e =
      create-IsWellFormed p c (supersede s m)
        (λ r lt. supersede-fresh s m r h (rw (← counter-supersede s m) lt))
        (looked_up (truthy c.context_key) s m h e) (λ r. supersede-bounded s m r h)

  submit_when-IsWellFormed :
      (o : Option ℕ) (p : ApiPriority) (c : HdgCommand) (m : Manager R E)
      → IsWellFormed m
      → existing_request c m ≡ o
      → IsWellFormed (submit_when o p c m).1
  unfolding submit_when
  submit_when-IsWellFormed none p c m h e =
      create-IsWellFormed p c m h.fresh (λ key r ne. h.current key r) h.bounded
  submit_when-IsWellFormed (some s) p c m h e = elim (Bool-cases (is_set_node c.cmd_type)) [
    | inl set ↦ rw set (replaced-IsWellFormed s p c m h e)
    | inr read ↦ rw read h
  ]

  pub submit-IsWellFormed :
      (p : ApiPriority) (c : HdgCommand) (m : Manager R E)
      → IsWellFormed m
      → IsWellFormed (submit_request p c m).1
  unfolding submit_request
  submit-IsWellFormed p c m h = submit_when-IsWellFormed (existing_request c m) p c m h refl
