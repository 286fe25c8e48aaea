-- ===== src/AccessManager/Examples.antt =====
-- Runs of the access manager on small inputs:
-- custom_components/hdg_boiler/helpers/api_access_manager.py
use hdg_bavaria_homeassistan.Prelude.{
  ℕ, ◌≡◌, ◌≢◌, refl, Text, codes, text_eq, true, false, none, some, List, [], ◌∷◌, ◌++◌, arith,
}
use hdg_bavaria_homeassistan.Models.{HdgCommand, CommandType}
use hdg_bavaria_homeassistan.AccessManager.{
  ApiRequest, Manager, returned, raised, executing, high, medium, low, result, exception,
  submit_request, worker_get, stop, init_manager,
}
use hdg_bavaria_homeassistan.AccessManager.Events.{
  Event, submit, get, answer, callback, begin, halt, drain, step, run, is_open,
}
use hdg_bavaria_homeassistan.AccessManager.Lost.{superseded_never_answered, stop_loses_held}
use hdg_bavaria_homeassistan.AccessManager.Invariant.{IsWellFormed}
use hdg_bavaria_homeassistan.AccessManager.Invariant.Kept.{run-IsWellFormed, init-IsWellFormed}
use hdg_bavaria_homeassistan.AccessManager.Tracked.{IsTracked, run-IsTracked, init-IsTracked}
use hdg_bavaria_homeassistan.AccessManager.Order.{worker_takes_most_urgent}
use hdg_bavaria_homeassistan.AccessManager.Sorted.{BeforeAll}
use hdg_bavaria_homeassistan.AccessManager.Retry.{
  IsReady, future_of, failures, retries_then_raises, retries_then_returns,
}
use hdg_bavaria_homeassistan.AccessManager.Sharing.{superseded, Carries, reads_share, last_set_wins}

-- SET 6022 to a value
abbrev set_command : Text → HdgCommand
set_command v = record {
  cmd_type = CommandType.set_node;
  context_key = some (codes "6022");
  node_id = some (codes "6022");
  node_ids = none;
  value = some v;
}

abbrev read_command : HdgCommand
read_command = record {
  cmd_type = CommandType.get_nodes;
  context_key = some (codes "group_1");
  node_id = none;
  node_ids = some (codes "24024T" ∷ []);
  value = none;
}

abbrev slider : List (Event ℕ ℕ)
slider =
    begin ∷ submit high (set_command (codes "20")) ∷ submit high (set_command (codes "21")) ∷ []

abbrev old_request : ApiRequest ℕ ℕ
old_request = record {
  request_id = 1;
  priority = high;
  command = set_command (codes "20");
  future = none;
  is_superseded = true;
  retry_count = 0;
}

abbrev new_request : ApiRequest ℕ ℕ
new_request = record {
  request_id = 2;
  priority = high;
  command = set_command (codes "21");
  future = none;
  is_superseded = false;
  retry_count = 0;
}

abbrev later : List (Event ℕ ℕ)
later = get ∷ answer (result 7) ∷ callback ∷ halt ∷ drain ∷ []

superseded_never_answered_example :
    is_open ((run (get ∷ later) (run slider init_manager)).requests 1) ≡ true
unfolding run step text_eq
superseded_never_answered_example =
    superseded_never_answered (record { priority = high; order = 1; request = 1 })
      (record { priority = high; order = 2; request = 2 } ∷ []) old_request
      (run slider init_manager) later refl refl refl refl refl refl (omega arith) (omega arith)

stop_loses_held_example :
    is_open (
      (run later (stop (run (begin ∷ submit low read_command ∷ get ∷ []) init_manager))).requests 1)
    ≡ true
unfolding run step text_eq
stop_loses_held_example =
    stop_loses_held 1 (run (begin ∷ submit low read_command ∷ get ∷ []) init_manager) later refl
      refl refl (omega arith) (omega arith)

run-IsWellFormed_example : IsWellFormed (run (slider ++ later) (init_manager {R = ℕ} {E = ℕ}))
run-IsWellFormed_example = run-IsWellFormed (slider ++ later) init_manager init-IsWellFormed

run-IsTracked_example : IsTracked (run slider (init_manager {R = ℕ} {E = ℕ}))
run-IsTracked_example = run-IsTracked slider init_manager (omega arith) init-IsTracked

abbrev mixed : List (Event ℕ ℕ)
mixed = begin ∷ submit low read_command ∷ submit high (set_command (codes "21")) ∷ []

worker_takes_most_urgent_example :
    let m = worker_get (run mixed init_manager) in
    (m.worker ≡ executing 2)
    × (m.request_queue ≡ record { priority = low; order = 1; request = 1 } ∷ [])
    × BeforeAll
        (record { priority = high; order = 2; request = 2 })
        (record { priority = low; order = 1; request = 1 } ∷ [])
unfolding run step text_eq
worker_takes_most_urgent_example =
    worker_takes_most_urgent mixed (record { priority = high; order = 2; request = 2 })
      (record { priority = low; order = 1; request = 1 } ∷ []) new_request refl refl refl refl

abbrev one_set : Manager ℕ ℕ
one_set = run (begin ∷ submit high (set_command (codes "21")) ∷ []) init_manager

abbrev only_request : ApiRequest ℕ ℕ
only_request = record new_request { request_id = 1 }

one_set-IsReady : IsReady (record { priority = high; order = 1; request = 1 }) only_request one_set
unfolding run step text_eq
one_set-IsReady = record {
  idle = refl;
  alone = refl;
  found = refl;
  sets = refl;
  kept = refl;
  unanswered = refl;
}

retries_then_raises_example :
    future_of
      ((run (failures (1 ∷ 2 ∷ 3 ∷ []) ++ get ∷ answer (exception 4) ∷ []) one_set).requests 1)
    ≡ some (raised 4)
retries_then_raises_example =
    retries_then_raises (record { priority = high; order = 1; request = 1 }) only_request one_set
      (1 ∷ 2 ∷ 3 ∷ []) 4 one_set-IsReady refl

retries_then_returns_example :
    future_of ((run (failures (1 ∷ 2 ∷ []) ++ get ∷ answer (result 9) ∷ []) one_set).requests 1)
    ≡ some (returned 9)
retries_then_returns_example =
    retries_then_returns (record { priority = high; order = 1; request = 1 }) only_request one_set
      (1 ∷ 2 ∷ []) 9 one_set-IsReady (omega arith)

reads_share_example :
    let (r, n) = submit_request low read_command one_set in
    submit_request medium read_command n ≡ (r, n)
reads_share_example = reads_share low medium read_command read_command one_set refl refl refl

last_set_wins_example :
    let (r, n) = submit_request high (set_command (codes "20")) (init_manager {R = ℕ} {E = ℕ}) in
    let (r', n') = submit_request high (set_command (codes "21")) n in
    (r ≢ r')
    × (superseded (n'.requests r) ≡ true)
    × (n'.pending_requests (codes "6022") ≡ some r')
    × Carries (n'.requests r') (set_command (codes "21"))
last_set_wins_example =
    last_set_wins high high (set_command (codes "20")) (set_command (codes "21")) init_manager
      init-IsWellFormed refl refl refl refl
