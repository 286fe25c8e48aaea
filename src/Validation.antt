-- ===== src/Validation.antt =====
-- custom_components/hdg_boiler/helpers/validation_utils.py, and `format_value_for_api` of
-- custom_components/hdg_boiler/helpers/parsers.py. A finite `float` or `Decimal` is a whole number
-- of units: a Decimal 1e-9 has `epsilon` of them, so that 1 has 10^9 times as many. Decimal's
-- 28 digits hold every number that the checks meet exactly. `float` and the formatting of a float
-- with a fixed number of decimals are Python's, and are the interface `PythonFloats`.
mod Examples
pub mod Step
pub mod Whole
pub mod Convert
use hdg_bavaria_homeassistan.Prelude.{
  ℕ, zero, suc, ◌+◌, ◌*◌, ◌/◌, ◌%◌, Text, codes, Bool, true, false, not, ◌||◌, Option, none, some,
  ltb, ◌==◌, text_eq, if◌then◌else◌,
}
use hdg_bavaria_homeassistan.Models.{ℤ, pos, negsuc}
use hdg_bavaria_homeassistan.Integers.{
  pos_part, neg_part, ◌-ℤ◌, ltb_ℤ, abs_ℤ, sub_ℕ, times, rem_ℤ, int_text,
}

pub data Number : Type 0 where
  finite : ℤ → Number
  -- `-inf` is `infinite true`
  infinite : Bool → Number
  nan : Number

-- The cases of ServiceValidationError.
pub data Reason : Type 0 where
  missing_node_id missing_value not_settable not_numeric not_found : Reason
  below_minimum above_maximum negative_step not_the_minimum not_a_step : Reason

-- The exceptions: ServiceValidationError, OverflowError, decimal's InvalidOperation, ValueError
-- with TypeError, and HomeAssistantError.
pub data Problem : Type 0 where
  service_validation : Reason → Problem
  overflow_error invalid_operation value_error home_assistant_error : Problem

pub data Checked (A : Type 0) : Type 0 where
  ok : A → Checked A
  raises : Problem → Checked A

-- the next statement, which an exception skips
infixl 20 ◌and_then◌
abbrev pub ◌and_then◌ : {A B : Type 0} → Checked A → (A → Checked B) → Checked B
(ok a) and_then f = f a
(raises p) and_then f = raises p

-- Raises if a comparison holds; a comparison with NaN is an InvalidOperation.
pub refuse_if : Option Bool → Reason → Checked Unit
refuse_if none r = raises invalid_operation
refuse_if (some true) r = raises (service_validation r)
refuse_if (some false) r = ok tt

-- `value < min_val`
pub is_below : Number → ℤ → Option Bool
is_below (finite v) m = some (ltb_ℤ v m)
is_below (infinite negative) m = some negative
is_below nan m = none

-- `value > max_val`
pub is_above : Number → ℤ → Option Bool
is_above (finite v) m = some (ltb_ℤ m v)
is_above (infinite negative) m = some (not negative)
is_above nan m = none

check_minimum : Number → Option ℤ → Checked Unit
unfolding refuse_if is_below
check_minimum v none = ok tt
check_minimum v (some m) = refuse_if (is_below v m) below_minimum

check_maximum : Number → Option ℤ → Checked Unit
unfolding refuse_if is_above
check_maximum v none = ok tt
check_maximum v (some m) = refuse_if (is_above v m) above_maximum

-- `_validate_range`
pub validate_range : Number → Option ℤ → Option ℤ → Checked Unit
unfolding check_minimum check_maximum
validate_range v min_val max_val = check_minimum v min_val and_then λ _. check_maximum v max_val

-- `value != min_val` of `_validate_step`
is_minimum : Number → ℤ → Bool
is_minimum (finite v) m = abs_ℤ (v -ℤ m) == 0
is_minimum (infinite negative) m = false
is_minimum nan m = false

module _ (epsilon : ℕ) where
  -- the units of 1, and those of 0.1
  abbrev pub one : ℕ
  one = 1_000_000_000 * epsilon

  abbrev pub tenth : ℕ
  tenth = 100_000_000 * epsilon

  -- `is_close_to_zero or is_close_to_step`
  pub is_close : ℤ → ℕ → Bool
  is_close remainder step =
      ltb (abs_ℤ remainder) epsilon || ltb (abs_ℤ (remainder -ℤ pos step)) epsilon

  -- The remainder, exact: the 28 digits of Decimal are enough for what has passed the range check.
  check_remainder : Number → ℤ → ℕ → Checked Unit
  unfolding is_close rem_ℤ ◌-ℤ◌
  check_remainder (finite v) m step =
      if is_close (rem_ℤ (v -ℤ m) step) step then ok tt else raises (service_validation not_a_step)
  check_remainder (infinite negative) m step = raises invalid_operation
  check_remainder nan m step = raises invalid_operation

  -- `_validate_step`
  pub validate_step : Number → ℤ → ℤ → Checked Unit
  unfolding is_minimum check_remainder
  validate_step v m (negsuc n) = raises (service_validation negative_step)
  validate_step v m (pos zero) =
      if is_minimum v m then ok tt else raises (service_validation not_the_minimum)
  validate_step v m (pos (suc n)) = check_remainder v m (suc n)

  -- a number of a definition, which counts tenths
  pub units : Option ℤ → Option ℤ
  unfolding times
  units none = none
  units (some t) = some (times t tenth)

  step_when : Number → Option ℤ → Option ℤ → Checked Unit
  unfolding validate_step
  step_when v (some m) (some step) = validate_step v m step
  step_when v (some m) none = ok tt
  step_when v none step = ok tt

  -- `validate_value_range_and_step`
  unfoldable pub validate_value_range_and_step :
      Number → (min_val max_val step : Option ℤ) → Checked Unit
  unfolding validate_range units step_when
  validate_value_range_and_step v min_val max_val step =
      validate_range v (units min_val) (units max_val) and_then λ _.
      step_when v (units min_val) (units step)

  -- `temp_float != int(temp_float)`, then `int(temp_float)`
  whole_number : Number → Checked Number
  whole_number (finite v) = if abs_ℤ v % one == 0 then ok (finite v) else raises value_error
  whole_number (infinite negative) = raises overflow_error
  whole_number nan = raises value_error

  -- the whole number next to `v`, and of two the even one
  round_ℕ : ℕ → ℕ
  round_ℕ v =
      let q = v / one in
      let twice = 2 * (v % one) in
      if ltb twice one then q else if ltb one twice then q + 1 else q + q % 2

  round_half_even : ℤ → ℤ
  unfolding round_ℕ
  round_half_even v = sub_ℕ (round_ℕ (pos_part v)) (round_ℕ (neg_part v))

  int_of_number : Number → Checked Text
  unfolding round_half_even int_text
  int_of_number (finite v) = ok (int_text (round_half_even v))
  int_of_number (infinite negative) = raises overflow_error
  int_of_number nan = raises value_error

-- What Python makes of a value that a caller gives, and of a float.
pub record PythonFloats (R : Type 0) : Type 0 where
  -- `float(value)`
  pub to_float : R → Checked Number
  -- `str(value)`
  pub to_text : R → Text
  -- `f"{value:.1f}"`, `f"{value:.2f}"`
  pub format_fixed : ℕ → Number → Text

-- `except (ValueError, TypeError)`
catch_value_error : {A : Type 0} → Checked A → Checked A
catch_value_error (ok a) = ok a
catch_value_error (raises (service_validation r)) = raises (service_validation r)
catch_value_error (raises overflow_error) = raises overflow_error
catch_value_error (raises invalid_operation) = raises invalid_operation
catch_value_error (raises value_error) = raises (service_validation not_numeric)
catch_value_error (raises home_assistant_error) = raises home_assistant_error

-- `node_type in ["float1", "float2"]`
abbrev is_float_type : Text → Bool
is_float_type node_type = text_eq node_type (codes "float1") || text_eq node_type (codes "float2")

module _ {R : Type 0} (python : PythonFloats R) (epsilon : ℕ) where
  coerce : R → Option Text → Checked Number
  unfolding whole_number text_eq
  coerce value none = raises value_error
  coerce value (some node_type) =
      if text_eq node_type (codes "int")
      then python.to_float value and_then whole_number epsilon
      else if is_float_type node_type
      then python.to_float value
      else raises value_error

  unfoldable pub coerce_value_to_numeric_type : R → Option Text → Checked Number
  unfolding coerce catch_value_error
  coerce_value_to_numeric_type value node_type = catch_value_error (coerce value node_type)

  unfoldable pub format_value_for_api : Number → Text → Checked Text
  unfolding int_of_number text_eq
  format_value_for_api v setter_type =
      if text_eq setter_type (codes "int")
      then int_of_number epsilon v
      else if text_eq setter_type (codes "float1")
      then ok (python.format_fixed 1 v)
      else if text_eq setter_type (codes "float2")
      then ok (python.format_fixed 2 v)
      else raises value_error
