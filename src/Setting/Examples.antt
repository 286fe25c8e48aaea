-- ===== src/Setting/Examples.antt =====
-- A slider moved twice: custom_components/hdg_boiler/coordinator.py
use hdg_bavaria_homeassistan.Prelude.{
  ◌≡◌, refl, Text, codes, text_eq, Bool, false, true, none, some, List, [], ◌∷◌,
}
use hdg_bavaria_homeassistan.Prelude.Dict.{insert, lookup}
use hdg_bavaria_homeassistan.Optimistic.{get_held}
use hdg_bavaria_homeassistan.Setting.{
  SetTask, Setting, raised, returned, init_setting, update_node, async_set_node_value, begin_set,
  end_set,
}
use hdg_bavaria_homeassistan.Setting.Debounce.{
  timer_step, TimerEvent, call, run_timers, init_setting-IsDebounced, last_call_debounces,
}
use hdg_bavaria_homeassistan.Setting.Rollback.{
  lookup-end_set, failed_set_undoes_poll, ended_set_hides_newer,
}
use hdg_bavaria_homeassistan.Setting.Timers.{timers_for}

abbrev moved_once : List TimerEvent
moved_once = call 1000 (codes "6022") (codes "20") ∷ []

last_call_debounces_example :
    timers_for
      (codes "6022")
      (async_set_node_value 1500
        (codes "6022")
        (codes "21")
        (run_timers moved_once (init_setting {V = Text}))).live
    ≡ record { id = 1; node_id = codes "6022"; value = codes "21" } ∷ []
unfolding run_timers timer_step async_set_node_value text_eq
last_call_debounces_example =
    last_call_debounces moved_once 1500 (codes "6022") (codes "21") (init_setting {V = Text})
      init_setting-IsDebounced

abbrev task : SetTask
task = record { node_id = codes "6022"; value = codes "21" }

abbrev same_text : Text → Text
same_text t = t

-- No text stands for None.
abbrev never_none : Text → Bool
never_none t = false

abbrev at_20 : Setting Text
at_20 = update_node (codes "6022") (codes "20") init_setting

lookup-end_set_example :
    lookup
      (codes "6022")
      (end_set same_text task
        (begin_set never_none task at_20)
        raised
        (init_setting {V = Text})).node_values
    ≡ some (codes "20")
unfolding text_eq insert update_node lookup
lookup-end_set_example =
    lookup-end_set same_text never_none (codes "6022") task raised at_20 (init_setting {V = Text})

failed_set_undoes_poll_example :
    lookup
      (codes "6022")
      (end_set same_text task
        (begin_set never_none task at_20)
        raised
        (update_node (codes "6022") (codes "25") at_20)).node_values
    ≡ some (codes "20")
unfolding text_eq begin_set lookup update_node insert
failed_set_undoes_poll_example =
    failed_set_undoes_poll same_text never_none task (codes "20") (codes "25") at_20 refl refl

ended_set_hides_newer_example :
    (get_held 2000
      (codes "6022")
      (end_set same_text task none (returned true) (
        async_set_node_value 1500
          (codes "6022")
          (codes "22")
          (init_setting {V = Text}))).optimistic).0
    ≡ none
ended_set_hides_newer_example =
    ended_set_hides_newer same_text task 1500 2000 (codes "22") none (returned true)
      (init_setting {V = Text})
