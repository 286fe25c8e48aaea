-- ===== src/Validation/Convert.antt =====
-- Whole numbers through the conversions of custom_components/hdg_boiler/helpers/validation_utils.py
-- and custom_components/hdg_boiler/helpers/parsers.py
use native.Mathlib.Nat.{mul-mod_left, mul-div_left, add-mul}
use hdg_bavaria_homeassistan.Prelude.{
  ℕ, suc, ◌*◌, ◌/◌, ◌%◌, ◌≡◌, refl, sym, ◌∙◌, ap, codes, some, arith, text_eq,
}
use hdg_bavaria_homeassistan.Models.{ℤ}
use hdg_bavaria_homeassistan.Integers.{
  pos_part, neg_part, sub_ℕ, times, times_parts, eq_of_parts, int_text, abs_ℤ,
}
use hdg_bavaria_homeassistan.Validation.{
  finite, one, ok, PythonFloats, whole_number, round_ℕ, round_half_even, coerce,
  coerce_value_to_numeric_type, catch_value_error, int_of_number, format_value_for_api,
}

round-times : (a e : ℕ) → round_ℕ (suc e) (a * one (suc e)) ≡ a
unfolding round_ℕ
round-times a e =
    let quotient : a * one (suc e) / one (suc e) ≡ a = mul-div_left a (omega arith) in
    let remainder : a * one (suc e) % one (suc e) ≡ 0 = mul-mod_left a (one (suc e)) in
    rw (remainder, quotient) (ground arith)

round_half_even-times : (z : ℤ) (e : ℕ) → round_half_even (suc e) (times z (one (suc e))) ≡ z
unfolding round_half_even
round_half_even-times z e =
    let (p, n) = times_parts z (one (suc e)) in
    rw (p, n, round-times (pos_part z) e, round-times (neg_part z) e)
      (eq_of_parts (sub_ℕ (pos_part z) (neg_part z)) z (ground arith))

abs-times : (z : ℤ) (k : ℕ) → abs_ℤ (times z k) ≡ abs_ℤ z * k
abs-times z k =
    let (p, n) = times_parts z k in rw (p, n) (sym (add-mul (pos_part z) (neg_part z) k))

whole_number-times :
    (z : ℤ) (e : ℕ)
    → whole_number (suc e) (finite (times z (one (suc e)))) ≡ ok (finite (times z (one (suc e))))
unfolding whole_number
whole_number-times z e =
    let whole : abs_ℤ (times z (one (suc e))) % one (suc e) ≡ 0 =
      ap (λ x. x % one (suc e)) (abs-times z (one (suc e)))
      ∙ mul-mod_left (abs_ℤ z) (one (suc e)) in
    rw (whole) refl

module _ {R : Type 0} (python : PythonFloats R) where
  -- The value of a setter of type int
  pub coerce-whole :
      (e : ℕ) (raw : R) (z : ℤ)
      → python.to_float raw ≡ ok (finite (times z (one (suc e))))
      → coerce_value_to_numeric_type python (suc e) raw (some (codes "int"))
        ≡ ok (finite (times z (one (suc e))))
  unfolding coerce_value_to_numeric_type coerce catch_value_error text_eq
  coerce-whole e raw z h = rw (h, whole_number-times z e) refl

  pub format-whole :
      (e : ℕ) (z : ℤ)
      → format_value_for_api python (suc e) (finite (times z (one (suc e)))) (codes "int")
        ≡ ok (int_text z)
  unfolding format_value_for_api int_of_number text_eq
  format-whole e z = rw (round_half_even-times z e) refl
