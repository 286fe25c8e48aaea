-- ===== src/Entities/Selected.antt =====
-- A select shows the option that was chosen: custom_components/hdg_boiler/select.py with the
-- coordinator, the optimistic values, the parsers and the definitions.
use hdg_bavaria_homeassistan.Prelude.{
  ℕ, ◌+◌, ◌<◌, ◌≡◌, refl, List, ◌∙◌, Text, codes, true, false, Option, none, some, text_eq_refl,
}
use hdg_bavaria_homeassistan.Prelude.Dict.{Dict, lookup, lookup-without, IsDict}
use hdg_bavaria_homeassistan.Models.{SensorDefinition}
use hdg_bavaria_homeassistan.Texts.{upper_text}
use hdg_bavaria_homeassistan.Polling.{is_listed}
use hdg_bavaria_homeassistan.Optimistic.{optimistic_grace_period, clear_held}
use hdg_bavaria_homeassistan.Optimistic.Refinement.{get_held-shown}
use hdg_bavaria_homeassistan.Setting.{Setting, SetTask, returned, end_set}
use hdg_bavaria_homeassistan.Setting.Rollback.{value-end_set}
use hdg_bavaria_homeassistan.Setting.Meanwhile.{
  Meanwhile, happen_all, AllSpare, Keeps, happen_all-Keeps, set-Keeps,
}
use hdg_bavaria_homeassistan.Definitions.{get_sensor_definitions}
use hdg_bavaria_homeassistan.Parsers.{Value, text_value, PythonTexts, value_text}
use hdg_bavaria_homeassistan.Parsers.Extract.{has}
use hdg_bavaria_homeassistan.Parsers.Kept.{parse_text}
use hdg_bavaria_homeassistan.Entities.{
  entity_node, available, current_option, async_select_option, options_of, sent_option,
  shown_option, get_value, optimistic_or_option, stored_or_parsed, stored_value, parse_stored,
  is_there, is_value_unavailable, option_of_value,
}
use hdg_bavaria_homeassistan.Entities.Chosen.{IsGood, select-IsGood, survives}

-- What is asked of `html.unescape`: it leaves a text without an ampersand as it is.
abbrev KeepsPlainTexts : {M : Type 0} → PythonTexts M → Type 0
KeepsPlainTexts python = (s : Text) → has b'&' s ≡ false → python.unescape s ≡ s

module _ {M : Type 0} (python : PythonTexts M) (epsilon : ℕ) (timezone : Text)
    (plain : KeepsPlainTexts python) where
  -- What is stored by a SET of an option is read as that option.
  get_value-sent :
      (d : SensorDefinition) (o : Text) (s : Setting (Value M))
      → IsGood d o
      → lookup (entity_node d) s.node_values ≡ some (text_value (upper_text o))
      → get_value python epsilon timezone d s ≡ text_value (upper_text o)
  unfolding get_value stored_or_parsed stored_value parse_stored value_text
  get_value-sent d o s (cap, txt, h) at =
      let (stripped, no_entity, rest, e, f) = survives d o h in
      rw (at) (
        parse_text python epsilon timezone (upper_text o) d txt (plain (upper_text o) no_entity)
          stripped)

  available-sent :
      (d : SensorDefinition) (o : Text) (s : Setting (Value M))
      → IsGood d o
      → lookup (entity_node d) s.node_values ≡ some (text_value (upper_text o))
      → available true d s ≡ true
  unfolding available stored_value is_there is_value_unavailable
  available-sent d o s (cap, txt, h) at =
      let (stripped, no_entity, there, e, f) = survives d o h in rw (at) (rw (there) refl)

  -- A stored option is shown where no optimistic value hides it.
  shows_stored :
      (now : ℕ) (d : SensorDefinition) (o : Text) (s : Setting (Value M))
      → IsGood d o
      → lookup (entity_node d) s.node_values ≡ some (text_value (upper_text o))
      → lookup (entity_node d) s.optimistic ≡ none
      → current_option python epsilon timezone true now d s ≡ some o
  unfolding current_option optimistic_or_option option_of_value shown_option value_text
  shows_stored now d o s good at gone =
      let (stripped, no_entity, there, e, f) = survives d o good.2 in
      rw
        (
          available-sent d o s good at,
          get_held-shown now (entity_node d) s.optimistic,
          gone,
          get_value-sent d o s good at,
          good.0,
          f,
        )
        refl

  -- Directly after the choice, the optimistic value is the option as it is sent.
  chosen-Keeps :
      (now later : ℕ) (d : SensorDefinition) (o : Text) (s : Setting (Value M))
      → IsGood d o
      → is_listed o (options_of d) ≡ true
      → IsDict s.optimistic
      → later < now + optimistic_grace_period
      → Keeps text_value (entity_node d) later (some (upper_text o)) (async_select_option now o d s)
  unfolding async_select_option sent_option
  chosen-Keeps now later d o s (cap, txt, h) listed dict fresh =
      rw (listed, cap) (set-Keeps text_value now later (entity_node d) (upper_text o) s dict fresh)

  shows_optimistic :
      (later : ℕ) (d : SensorDefinition) (o : Text) (s : Setting (Value M))
      → IsGood d o
      → Keeps text_value (entity_node d) later (some (upper_text o)) s
      → available true d s ≡ true
      → current_option python epsilon timezone true later d s ≡ some o
  unfolding current_option optimistic_or_option shown_option
  shows_optimistic later d o s (cap, txt, h) kept there =
      let (a, b, c, e, f) = survives d o h in
      rw (there, get_held-shown later (entity_node d) s.optimistic, kept.shows, cap, e) refl

  lookup-ended :
      (t : SetTask) (old : Option (Value M)) (s : Setting (Value M))
      → lookup t.node_id (end_set text_value t old (returned true) s).optimistic ≡ none
  unfolding end_set clear_held
  lookup-ended t old s =
      lookup-without t.node_id t.node_id s.optimistic ∙ rw (text_eq_refl t.node_id) refl

  -- For every select of the catalogue, whatever the options of the integration, and each of its
  -- options: an option that a user chooses is shown at any time before the grace period has
  -- passed, if the entity is then available and the last update succeeded, whatever happens in
  -- between of these: polled values, calls and ends of SETs for other nodes, timers that run, a
  -- stop of the timers, and readings and cleanups of the optimistic values; and when a SET of the
  -- option ends with the confirmation of the boiler, in any state, the option is shown from the
  -- stored value, at any time, if the last update succeeded. The optimistic store has each key
  -- once, nothing is read or cleaned up after the time of the display, and html.unescape leaves a
  -- text without an ampersand as it is.
  pub selected_option_is_shown :
      (opts : Dict Text) (key o : Text) (d : SensorDefinition) (now later : ℕ)
      (events : List (Meanwhile (Value M))) (old : Option (Value M)) (s : Setting (Value M))
      → lookup key (get_sensor_definitions opts) ≡ some d
      → d.ha_platform ≡ codes "select"
      → is_listed o (options_of d) ≡ true
      → IsDict s.optimistic
      → AllSpare (entity_node d) later events
      → (available true d (happen_all text_value events (async_select_option now o d s)) ≡ true
          → later < now + optimistic_grace_period
          → current_option python epsilon timezone true later d
              (happen_all text_value events (async_select_option now o d s))
            ≡ some o)
        × (current_option python epsilon timezone true later d (
              end_set text_value
                (record { node_id = entity_node d; value = sent_option d.uppercase_value o })
                old
                (returned true)
                s)
            ≡ some o)
  unfolding sent_option
  selected_option_is_shown opts key o d now later events old s found select listed dict spare =
      let good = select-IsGood opts key o d found select listed in
      let t : SetTask = record {
        node_id = entity_node d;
        value = sent_option d.uppercase_value o;
      } in
      let chosen = async_select_option now o d s in
      (
        λ there fresh.
            shows_optimistic later d o (happen_all text_value events chosen) good
              (happen_all-Keeps text_value (entity_node d) later (some (upper_text o)) events chosen
                spare (chosen-Keeps now later d o s good listed dict fresh))
              there,
        shows_stored later d o (end_set text_value t old (returned true) s) good
            (value-end_set text_value (entity_node d) t old (returned true) s
              ∙ rw (text_eq_refl (entity_node d), good.0) refl)
            (lookup-ended t old s),
      )
