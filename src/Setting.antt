-- ===== src/Setting.antt =====
-- The writing half of custom_components/hdg_boiler/coordinator.py: `async_set_node_value` with its
-- debounce timers, `_execute_set_request`, and the node values. A value of a node has the type `V`,
-- which holds texts by `of_text`. Home Assistant's `async_call_later` gives a timer that runs once
-- unless it was cancelled before; `live` are the timers that it has still to run.
mod Examples
pub mod Timers
pub mod Debounce
pub mod Rollback
pub mod Meanwhile
use hdg_bavaria_homeassistan.Prelude.{
  ℕ, ◌+◌, Text, Bool, true, false, Option, none, some, List, [], ◌∷◌, ◌++◌, ◌==◌, if◌then◌else◌,
}
use hdg_bavaria_homeassistan.Prelude.Dict.{Dict, lookup, insert, without}
use hdg_bavaria_homeassistan.Optimistic.{Store, set_held, clear_held, get_held}

-- `_fire_set` with the values that it closes over, and the number of its cancel function
pub record Timer : Type 0 where
  pub id : ℕ
  pub node_id : Text
  pub value : Text

-- a task that runs `_execute_set_request`
pub record SetTask : Type 0 where
  pub node_id : Text
  pub value : Text

pub record Setting (V : Type 0) : Type 0 where
  -- `self.data` of the coordinator
  pub node_values : Dict V
  pub optimistic : Store
  pub pending_set_timers : Dict Timer
  pub live : List Timer
  pub next_id : ℕ
  pub tasks : List SetTask

-- what a cancel function does
pub cancel_timer : ℕ → List Timer → List Timer
cancel_timer i [] = []
cancel_timer i (t ∷ ts) = let rest = cancel_timer i ts in if t.id == i then rest else t ∷ rest

pub cancel_pending : Option Timer → List Timer → List Timer
unfolding cancel_timer
cancel_pending none ts = ts
cancel_pending (some t) ts = cancel_timer t.id ts

pub find_timer : ℕ → List Timer → Option Timer
find_timer i [] = none
find_timer i (t ∷ ts) = if t.id == i then some t else find_timer i ts

pub cancel_each : Dict Timer → List Timer → List Timer
unfolding cancel_timer
cancel_each [] ts = ts
cancel_each ((k, t) ∷ d) ts = cancel_each d (cancel_timer t.id ts)

module _ {V : Type 0} where
  abbrev pub init_setting : Setting V
  init_setting = record {
    node_values = [];
    optimistic = [];
    pending_set_timers = [];
    live = [];
    next_id = 0;
    tasks = [];
  }

  -- `update_node`
  pub update_node : Text → V → Setting V → Setting V
  update_node node_id value s = record s { node_values = insert node_id value s.node_values }

  -- `async_set_node_value`; it returns (True, value) always
  unfoldable pub async_set_node_value : ℕ → Text → Text → Setting V → Setting V
  unfolding cancel_pending
  async_set_node_value now node_id value s =
      let timer : Timer = record { id = s.next_id; node_id = node_id; value = value } in
      record s {
        optimistic = set_held now node_id value none s.optimistic;
        live = timer ∷ cancel_pending (lookup node_id s.pending_set_timers) s.live;
        pending_set_timers = insert node_id timer (without node_id s.pending_set_timers);
        next_id = s.next_id + 1;
      }

  -- `_fire_set`, run by the loop for the timer of this number
  fire_found : Option Timer → Setting V → Setting V
  unfolding cancel_timer
  fire_found none s = s
  fire_found (some t) s = record s {
    live = cancel_timer t.id s.live;
    pending_set_timers = without t.node_id s.pending_set_timers;
    tasks = s.tasks ++ record { node_id = t.node_id; value = t.value } ∷ [];
  }

  pub fire : ℕ → Setting V → Setting V
  unfolding fire_found find_timer
  fire i s = fire_found (find_timer i s.live) s

  -- `async_stop`, before it stops the access manager
  pub stop_timers : Setting V → Setting V
  unfolding cancel_each
  stop_timers s = record s {
    live = cancel_each s.pending_set_timers s.live;
    pending_set_timers = [];
  }

-- How `submit_request` ends for a SET.
pub data SetOutcome : Type 0 where
  returned : Bool → SetOutcome
  raised cancelled : SetOutcome

-- `_execute_set_request` up to its wait: `self.data.get(node_id)`, the value that it keeps for a
-- rollback. `none` is None, be it that the node is missing or that None is stored for it, as
-- `is_none` says of a value.
module _ {V : Type 0} (is_none : V → Bool) where
  value_or_none : Option V → Option V
  value_or_none none = none
  value_or_none (some v) = if is_none v then none else some v

  pub begin_set : SetTask → Setting V → Option V
  unfolding value_or_none
  begin_set t s = value_or_none (lookup t.node_id s.node_values)

module _ {V : Type 0} (of_text : Text → V) where
  -- the `except` branch, with its `if old_value is not None`
  roll_back : Text → Option V → Setting V → Setting V
  unfolding update_node
  roll_back node_id none s = s
  roll_back node_id (some old) s = update_node node_id old s

  book_outcome : SetTask → Option V → SetOutcome → Setting V → Setting V
  unfolding roll_back update_node
  book_outcome t old (returned true) s = update_node t.node_id (of_text t.value) s
  book_outcome t old (returned false) s = s
  book_outcome t old raised s = roll_back t.node_id old s
  book_outcome t old cancelled s = s

  -- the rest of `_execute_set_request`, with its `finally`
  unfoldable pub end_set : SetTask → Option V → SetOutcome → Setting V → Setting V
  unfolding book_outcome
  end_set t old outcome s =
      let n = book_outcome t old outcome s in
      record n { optimistic = clear_held t.node_id n.optimistic }
