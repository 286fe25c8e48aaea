-- ===== src/Setting/Debounce.antt =====
-- Debouncing of the calls for one node: custom_components/hdg_boiler/coordinator.py
use hdg_bavaria_homeassistan.Prelude.{
  ℕ, ◌≡◌, refl, ◌∙◌, Text, Option, none, some, List, [], ◌∷◌, arith, text_eq_refl,
}
use hdg_bavaria_homeassistan.Prelude.Dict.{lookup, without, lookup-insert}
use hdg_bavaria_homeassistan.Setting.{
  Timer, Setting, find_timer, async_set_node_value, fire, fire_found, stop_timers, init_setting,
}
use hdg_bavaria_homeassistan.Setting.Timers.{
  timers_for, AllBelow-mono, AllBelow-cancel, AllBelow-pending, replaced, none_left, fired,
  find_timer-held, AllPending-AllIn, cancel_each-AllIn, IsDebounced,
}

-- What happens to the timers: a call for a node, the clock reaching a timer, and a stop.
pub data TimerEvent : Type 0 where
  call : (now : ℕ) (node_id value : Text) → TimerEvent
  clock : (id : ℕ) → TimerEvent
  shutdown : TimerEvent

module _ {V : Type 0} where
  unfoldable pub timer_step : TimerEvent → Setting V → Setting V
  unfolding async_set_node_value fire stop_timers
  timer_step (call now k v) s = async_set_node_value now k v s
  timer_step (clock i) s = fire i s
  timer_step shutdown s = stop_timers s

  unfoldable pub run_timers : List TimerEvent → Setting V → Setting V
  unfolding timer_step
  run_timers [] s = s
  run_timers (e ∷ es) s = run_timers es (timer_step e s)

  fire-IsDebounced :
      (o : Option Timer) (i : ℕ) (s : Setting V)
      → find_timer i s.live ≡ o
      → IsDebounced s
      → IsDebounced (fire_found o s)
  unfolding fire_found
  fire-IsDebounced none i s e h = h
  fire-IsDebounced (some t) i s e h =
      let (found, same) = find_timer-held i s.pending_set_timers s.live h.held t e in
      record {
        held = fired t.node_id t.id s.pending_set_timers s.live t found refl h.held;
        below = AllBelow-cancel s.next_id t.id s.live h.below;
      }

  timer_step-IsDebounced :
      (e : TimerEvent) (s : Setting V) → IsDebounced s → IsDebounced (timer_step e s)
  unfolding timer_step async_set_node_value fire stop_timers
  timer_step-IsDebounced (call now k v) s h = record {
    held = (
      lookup-insert k k _ (without k s.pending_set_timers) ∙ rw (text_eq_refl k) refl,
      replaced k _ (lookup k s.pending_set_timers) s.pending_set_timers s.live refl h.held,
    );
    below = (
      omega arith,
      AllBelow-mono s.next_id _
          (AllBelow-pending s.next_id (lookup k s.pending_set_timers) s.live h.below),
    );
  }
  timer_step-IsDebounced (clock i) s h = fire-IsDebounced (find_timer i s.live) i s refl h
  timer_step-IsDebounced shutdown s h =
      let gone =
        cancel_each-AllIn s.pending_set_timers s.live
          (AllPending-AllIn s.pending_set_timers s.live h.held) in
      record { held = rw gone tt; below = rw gone tt }

  run_timers-IsDebounced :
      (es : List TimerEvent) (s : Setting V) → IsDebounced s → IsDebounced (run_timers es s)
  unfolding run_timers
  run_timers-IsDebounced [] s h = h
  run_timers-IsDebounced (e ∷ es) s h =
      run_timers-IsDebounced es (timer_step e s) (timer_step-IsDebounced e s h)

  pub init_setting-IsDebounced : IsDebounced (init_setting {V = V})
  init_setting-IsDebounced = record { held = tt; below = tt }

  -- From a state in which every live timer is pending, after any sequence of calls, timers that
  -- run and stops, a call for a node leaves exactly one live timer for that node, the one of this
  -- call with its value.
  pub last_call_debounces :
      (es : List TimerEvent) (now : ℕ) (k v : Text) (s : Setting V)
      → IsDebounced s
      → timers_for k (async_set_node_value now k v (run_timers es s)).live
        ≡ record { id = (run_timers es s).next_id; node_id = k; value = v } ∷ []
  unfolding async_set_node_value timers_for
  last_call_debounces es now k v s h =
      let n = run_timers es s in
      rw
        (
          text_eq_refl k,
          none_left k (lookup k n.pending_set_timers) n.pending_set_timers n.live refl
              (run_timers-IsDebounced es s h).held,
        )
        refl

  -- From a state in which every live timer is pending, after any sequence of calls, timers that
  -- run and stops, a stop leaves no live timer.
  stop_cancels_timers :
      (es : List TimerEvent) (s : Setting V)
      → IsDebounced s
      → (stop_timers (run_timers es s)).live ≡ []
  unfolding stop_timers
  stop_cancels_timers es s h =
      let n = run_timers es s in
      cancel_each-AllIn n.pending_set_timers n.live
        (AllPending-AllIn n.pending_set_timers n.live (run_timers-IsDebounced es s h).held)
