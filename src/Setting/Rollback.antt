-- ===== src/Setting/Rollback.antt =====
-- What the end of a SET does to the node values and to the optimistic value:
-- custom_components/hdg_boiler/coordinator.py
use hdg_bavaria_homeassistan.Prelude.{
  ℕ, ◌≡◌, ◌∙◌, ap, inl, inr, Bool, Bool-cases, refl, Text, true, false, Option, none, some, arith,
  text_eq, text_eq_refl, if◌then◌else◌,
}
use hdg_bavaria_homeassistan.Prelude.Dict.{lookup, lookup-insert, lookup-without}
use hdg_bavaria_homeassistan.Optimistic.{get_held, clear_held}
use hdg_bavaria_homeassistan.Setting.{
  SetTask, Setting, SetOutcome, returned, raised, cancelled, update_node, async_set_node_value,
  begin_set, end_set, book_outcome, value_or_none,
}

module _ {V : Type 0} (of_text : Text → V) where
  -- The value that a node is to hold when a SET of `k` has ended.
  abbrev value_after : SetTask → Option V → SetOutcome → Option V → Option V
  value_after t old (returned true) now = some (of_text t.value)
  value_after t old (returned false) now = now
  value_after t none raised now = now
  value_after t (some v) raised now = some v
  value_after t old cancelled now = now

  -- The end of a SET, by the value that it kept.
  pub value-end_set :
      (k : Text) (t : SetTask) (old : Option V) (outcome : SetOutcome) (s : Setting V)
      → lookup k (end_set of_text t old outcome s).node_values ≡ (
          if text_eq t.node_id k
          then value_after t old outcome (lookup k s.node_values)
          else lookup k s.node_values)
  unfolding end_set update_node
  value-end_set k t old (returned true) s =
      ground (arith, lookup-insert t.node_id k (of_text t.value) s.node_values)
  value-end_set k t old (returned false) s = ground arith
  value-end_set k t none raised s = ground arith
  value-end_set k t (some v) raised s = ground (arith, lookup-insert t.node_id k v s.node_values)
  value-end_set k t old cancelled s = ground arith

module _ {V : Type 0} (of_text : Text → V) (is_none : V → Bool) where
  -- What an exception leaves a node with, from the value at the start and the one at the end.
  abbrev after_error : (start now : Option V) → Option V
  after_error none now = now
  after_error (some v) now = if is_none v then now else some v

  -- What the end of a SET leaves its node with, from the same two values.
  abbrev after_set : SetTask → SetOutcome → (start now : Option V) → Option V
  after_set t (returned true) start now = some (of_text t.value)
  after_set t (returned false) start now = now
  after_set t raised start now = after_error start now
  after_set t cancelled start now = now

  value_after-begin_set :
      (t : SetTask) (outcome : SetOutcome) (start now : Option V)
      → value_after of_text t (value_or_none is_none start) outcome now
        ≡ after_set t outcome start now
  unfolding value_or_none
  value_after-begin_set t (returned true) start now = refl
  value_after-begin_set t (returned false) start now = refl
  value_after-begin_set t raised none now = refl
  value_after-begin_set t raised (some v) now = elim (Bool-cases (is_none v)) [
    | inl e ↦ rw (e) refl
    | inr e ↦ rw (e) refl
  ]
  value_after-begin_set t cancelled start now = refl

  -- The end of a SET, in any state, gives its own node the value that was set if the API
  -- confirmed it, the value of the node when the SET began if the API raised and that value was
  -- there and not None, and the value it had otherwise; every other node keeps its value.
  pub lookup-end_set :
      (k : Text) (t : SetTask) (outcome : SetOutcome) (before s : Setting V)
      → lookup k (end_set of_text t (begin_set is_none t before) outcome s).node_values ≡ (
          if text_eq t.node_id k
          then after_set t outcome (lookup t.node_id before.node_values) (lookup k s.node_values)
          else lookup k s.node_values)
  unfolding begin_set
  lookup-end_set k t outcome before s =
      value-end_set of_text k t (begin_set is_none t before) outcome s
      ∙ ap (λ v. if text_eq t.node_id k then v else lookup k s.node_values)
          (value_after-begin_set t outcome (lookup t.node_id before.node_values)
            (lookup k s.node_values))

  -- If a node had a value other than None when a SET of it began, and a poll stores another value
  -- before the SET fails with an exception, the node then holds the value from before the poll.
  pub failed_set_undoes_poll :
      (t : SetTask) (old polled : V) (s : Setting V)
      → lookup t.node_id s.node_values ≡ some old
      → is_none old ≡ false
      → lookup t.node_id
          (end_set of_text t
            (begin_set is_none t s)
            raised
            (update_node t.node_id polled s)).node_values
        ≡ some old
  failed_set_undoes_poll t old polled s e given =
      lookup-end_set t.node_id t raised s (update_node t.node_id polled s)
      ∙ rw (text_eq_refl t.node_id, e) (rw (given) refl)

module _ {V : Type 0} (of_text : Text → V) where
  -- When a SET of a node ends, in any way, after a newer call for the same node, no optimistic
  -- value of that node is left, so the value of the newer call is not shown.
  pub ended_set_hides_newer :
      (t : SetTask) (now later : ℕ) (v : Text) (old : Option V) (outcome : SetOutcome)
      (s : Setting V)
      → (get_held later t.node_id
          (end_set of_text t old outcome (async_set_node_value now t.node_id v s)).optimistic).0
        ≡ none
  unfolding end_set clear_held get_held
  ended_set_hides_newer t now later v old outcome s = ground (
    arith,
    text_eq_refl t.node_id,
    lookup-without t.node_id t.node_id
        (book_outcome of_text t old outcome (async_set_node_value now t.node_id v s)).optimistic,
  )
