-- ===== src/Service/Sent.antt =====
-- What the service sends to the boiler: custom_components/hdg_boiler/services.py
use hdg_bavaria_homeassistan.Prelude.{
  ℕ, suc, ◌*◌, ◌≡◌, ◌↔◌, ◌⊎◌, inl, inr, refl, sym, ◌∙◌, ap, Text, codes, some, arith,
}
use hdg_bavaria_homeassistan.Prelude.Dict.{Dict}
use hdg_bavaria_homeassistan.Texts.{strip}
use hdg_bavaria_homeassistan.Models.{SensorDefinition, ℤ, pos}
use hdg_bavaria_homeassistan.Integers.{times, ◌+ℤ◌, ◌≤ℤ◌, int_text}
use hdg_bavaria_homeassistan.Registry.{get_settable_number_definition_by_base_node_id}
use hdg_bavaria_homeassistan.Setting.{Setting, async_set_node_value}
use hdg_bavaria_homeassistan.Validation.{
  finite, one, tenth, Problem, Reason, service_validation, home_assistant_error, overflow_error,
  invalid_operation, value_error, Checked, ok, raises, PythonFloats, ◌and_then◌,
  validate_value_range_and_step,
}
use hdg_bavaria_homeassistan.Validation.Whole.{validate_tenths, times-times}
use hdg_bavaria_homeassistan.Validation.Convert.{coerce-whole, format-whole}
use hdg_bavaria_homeassistan.Service.{
  ServiceCall, async_handle_set_node_value, validate_and_prepare_node_value, send_prepared,
  format_as, validate_set_node_service_call, validate_and_get_node_id, require_value,
  get_settable_definition, found_definition, validate_and_coerce_value, handled,
}

times-one : (z : ℤ) (e : ℕ) → times (times z 10) (tenth (suc e)) ≡ times z (one (suc e))
times-one z e = times-times z 10 (tenth (suc e)) ∙ ap (times z) (omega arith)

-- A setter for whole numbers
abbrev IsIntSetter : SensorDefinition → ℤ → ℤ → ℕ → Type 0
IsIntSetter d m M n =
    (d.setter_type ≡ some (codes "int"))
    × (d.setter_min_val ≡ some m)
    × (d.setter_max_val ≡ some M)
    × (d.setter_step ≡ some (pos (suc n)))

-- The number is in the range of the setter, a whole number of steps above the minimum.
abbrev pub IsAllowed : ℤ → ℤ → ℕ → ℤ → Type 0
IsAllowed m M n z =
    (m ≤ℤ times z 10) × (times z 10 ≤ℤ M) × (k : ℕ) × (times z 10 ≡ m +ℤ pos (k * suc n))

abbrev pub sends : Text → Text → Checked (Text × Text)
sends node_id text = ok (node_id, text)

send-checked :
    {V : Type 0} (c : Checked Unit) (now : ℕ) (node_id text : Text) (s : Setting V)
    → (send_prepared now (c and_then λ _. sends node_id text) s
        ≡ (ok tt, async_set_node_value now node_id text s))
      ↔ (c ≡ ok tt)
unfolding send_prepared
send-checked (ok done) now node_id text s = (λ e. refl, λ e. refl)
send-checked (raises p) now node_id text s = (λ e. cc, λ e. cc)

module _ {R : Type 0} (python : PythonFloats R) (e : ℕ) where
  validate-whole :
      (raw : R) (d : SensorDefinition) (m M z : ℤ) (n : ℕ)
      → IsIntSetter d m M n
      → python.to_float raw ≡ ok (finite (times z (one (suc e))))
      → validate_and_coerce_value python (suc e) raw d ≡ (
          validate_value_range_and_step
            (suc e)
            (finite (times z (one (suc e))))
            (some m)
            (some M)
            (some (pos (suc n)))
          and_then λ _. ok (finite (times z (one (suc e)))))
  unfolding validate_and_coerce_value
  validate-whole raw d m M z n (t, lo, hi, st) h =
      rw (t, lo, hi, st, coerce-whole python e raw z h) refl

  format-checked :
      (c : Checked Unit) (z : ℤ) (node_id : Text)
      → (((c and_then λ _. ok (finite (times z (one (suc e))))) and_then λ v.
            (format_as python (suc e) v (some (codes "int")) and_then λ text. sends node_id text))
          ≡ (c and_then λ _. sends node_id (int_text z)))
  unfolding format_as
  format-checked (ok done) z node_id =
      ap (λ c. c and_then λ text. sends node_id text) (format-whole python e z)
  format-checked (raises p) z node_id = refl

  -- The preparation of a call for a setter that is found.
  prepare-whole :
      (i raw : R) (definitions : Dict SensorDefinition) (d : SensorDefinition) (m M z : ℤ) (n : ℕ)
      → get_settable_number_definition_by_base_node_id (strip (python.to_text i)) definitions
        ≡ some d
      → IsIntSetter d m M n
      → python.to_float raw ≡ ok (finite (times z (one (suc e))))
      → validate_and_prepare_node_value python
          (suc e)
          (record { node_id = some i; value = some raw })
          definitions
        ≡ (validate_value_range_and_step
              (suc e)
              (finite (times z (one (suc e))))
              (some m)
              (some M)
              (some (pos (suc n)))
            and_then λ _. sends (strip (python.to_text i)) (int_text z))
  unfolding validate_and_prepare_node_value validate_set_node_service_call validate_and_get_node_id
      require_value get_settable_definition found_definition
  prepare-whole i raw definitions d m M z n found setter h =
      rw (found, validate-whole raw d m M z n setter h, setter.0)
        (format-checked
          (validate_value_range_and_step (suc e) (finite (times z (one (suc e)))) (some m) (some M)
            (some (pos (suc n))))
          z (strip (python.to_text i)))

  -- For a node that belongs to a setter of type int with a minimum, a maximum and a step above
  -- zero, and for a value that float reads as a whole number, the service set_node_value sends
  -- the text of that number to the coordinator and succeeds exactly if the number is in the range
  -- and a whole number of steps above the minimum.
  pub service_sends_whole :
      {V : Type 0} (i raw : R) (definitions : Dict SensorDefinition) (d : SensorDefinition)
      (m M z : ℤ) (n now : ℕ) (s : Setting V)
      → get_settable_number_definition_by_base_node_id (strip (python.to_text i)) definitions
        ≡ some d
      → IsIntSetter d m M n
      → python.to_float raw ≡ ok (finite (times z (one (suc e))))
      → (async_handle_set_node_value python
            (suc e)
            now
            (record { node_id = some i; value = some raw })
            definitions
            s
          ≡ (ok tt, async_set_node_value now (strip (python.to_text i)) (int_text z) s))
        ↔ IsAllowed m M n z
  unfolding async_handle_set_node_value
  service_sends_whole i raw definitions d m M z n now s found setter h =
      let checked =
        send-checked
          (validate_value_range_and_step (suc e) (finite (times z (one (suc e)))) (some m) (some M)
            (some (pos (suc n))))
          now (strip (python.to_text i)) (int_text z) s in
      let allowed : (validate_value_range_and_step (suc e) (finite (times z (one (suc e)))) (some m)
              (some M) (some (pos (suc n)))
            ≡ ok tt)
          ↔ IsAllowed m M n z =
        rw (sym (times-one z e)) (validate_tenths e (times z 10) m M n) in
      rw (prepare-whole i raw definitions d m M z n found setter h)
        (λ sent. allowed.0 (checked.0 sent), λ ok. checked.1 (allowed.1 ok))

-- Every call is either sent, or is refused with an error that Home Assistant shows.
abbrev pub IsReported : Problem → Type 0
IsReported p = ((r : Reason) × (p ≡ service_validation r)) ⊎ (p ≡ home_assistant_error)

handled-IsReported : (p : Problem) → IsReported (handled p)
unfolding handled
handled-IsReported (service_validation r) = inl (r, refl)
handled-IsReported overflow_error = inr refl
handled-IsReported invalid_operation = inr refl
handled-IsReported value_error = inr refl
handled-IsReported home_assistant_error = inr refl

send_prepared-answers :
    {V : Type 0} (now : ℕ) (c : Checked (Text × Text)) (s : Setting V)
    → ((node_id : Text) × (text : Text) × (c ≡ sends node_id text)
        × (send_prepared now c s ≡ (ok tt, async_set_node_value now node_id text s)))
      ⊎ ((p : Problem) × IsReported p × (send_prepared now c s ≡ (raises p, s)))
unfolding send_prepared
send_prepared-answers now (ok (node_id, text)) s = inl (node_id, text, refl, refl)
send_prepared-answers now (raises p) s = inr (handled p, handled-IsReported p, refl)

-- For every call, the service set_node_value either sends the prepared text to the coordinator
-- and succeeds, or leaves the coordinator as it is and raises a ServiceValidationError or a
-- HomeAssistantError, and nothing else.
pub set_service_answers :
    {R V : Type 0} (python : PythonFloats R) (epsilon now : ℕ) (call : ServiceCall R)
    (definitions : Dict SensorDefinition) (s : Setting V)
    → ((node_id : Text) × (text : Text) × (validate_and_prepare_node_value python epsilon call
            definitions
          ≡ sends node_id text)
        × (async_handle_set_node_value python epsilon now call definitions s
            ≡ (ok tt, async_set_node_value now node_id text s)))
      ⊎ ((p : Problem) × IsReported p
          × (async_handle_set_node_value python epsilon now call definitions s ≡ (raises p, s)))
unfolding async_handle_set_node_value
set_service_answers python epsilon now call definitions s =
    send_prepared-answers now (validate_and_prepare_node_value python epsilon call definitions) s
