-- ===== src/Validation/Step.antt =====
-- Which values a step allows: custom_components/hdg_boiler/helpers/validation_utils.py
use native.Mathlib.Decide.{dec_le}
use native.Mathlib.Nat.{add-mul, div-add-mod'}
use native.Mathlib.Omega.{mod_fact}
use hdg_bavaria_homeassistan.Prelude.{
  inl, inr, ap, ◌∙◌, Bool-cases, ℕ, suc, ◌+◌, ◌-◌, ◌*◌, ◌/◌, ◌%◌, ◌<◌, ◌≡◌, ◌↔◌, refl, true, ◌||◌,
  ltb, arith,
}
use hdg_bavaria_homeassistan.Models.{ℤ, pos}
use hdg_bavaria_homeassistan.Integers.{◌+ℤ◌, ◌-ℤ◌, rem_ℤ, +ℤ_parts, -ℤ_parts, eq_of_parts}
use hdg_bavaria_homeassistan.Validation.{finite, ok, is_close, check_remainder, validate_step}

-- The distance of two numbers.
abbrev pub gap : ℕ → ℕ → ℕ
gap a b = (a - b) + (b - a)

-- The multiple of the step below `d` or the one above it is within epsilon.
abbrev pub IsNear : ℕ → ℕ → ℕ → Type 0
IsNear epsilon d step = (k : ℕ) × (gap d (k * step) < epsilon)

+ℤ-ℤ_cancel : (m : ℤ) (d : ℕ) → (m +ℤ pos d) -ℤ m ≡ pos d
+ℤ-ℤ_cancel m d =
    eq_of_parts ((m +ℤ pos d) -ℤ m) (pos d)
      (omega (arith, -ℤ_parts (m +ℤ pos d) m, +ℤ_parts m (pos d)))

is_close_pos :
    (epsilon r n : ℕ)
    → r < suc n
    → is_close epsilon (pos r) (suc n) ≡ (ltb r epsilon || ltb (suc n - r) epsilon)
unfolding is_close ◌-ℤ◌
is_close_pos epsilon r n h = ground arith

-- A number close to a multiple of s is close to one of the two multiples around it.
close_cases :
    (epsilon q r s k : ℕ)
    → r < s
    → gap (q * s + r) (k * s) < epsilon
    → (ltb r epsilon || ltb (s - r) epsilon) ≡ true
close_cases epsilon q r s k lt h = elim (dec_le k q) [
  | yes le ↦
      let split : q * s ≡ k * s + (q - k) * s =
        (ap (λ x. x * s) (omega arith)) ∙ add-mul k (q - k) s in
      ground (arith, split)
  | no gt ↦
      let split : k * s ≡ (q + 1) * s + (k - (q + 1)) * s =
        (ap (λ x. x * s) (omega arith)) ∙ add-mul (q + 1) (k - (q + 1)) s in
      ground (arith, split, add-mul q 1 s)
]

IsNear-remainder :
    (epsilon d n : ℕ) → is_close epsilon (pos (d % suc n)) (suc n) ≡ true → IsNear epsilon d (suc n)
IsNear-remainder epsilon d n h = elim (Bool-cases (ltb (d % suc n) epsilon)) [
  | inl e ↦ (d / suc n, ground (arith, div-add-mod' d (suc n)))
  | inr e ↦ (
    d / suc n + 1,
    ground (
      arith,
      h,
      is_close_pos epsilon (d % suc n) n (mod_fact d n),
      div-add-mod' d (suc n),
      add-mul (d / suc n) 1 (suc n),
      mod_fact d n,
    ),
  )
]

remainder-near :
    (epsilon d n : ℕ) → IsNear epsilon d (suc n) → is_close epsilon (pos (d % suc n)) (suc n) ≡ true
remainder-near epsilon d n (k, h) =
    is_close_pos epsilon (d % suc n) n (mod_fact d n)
    ∙ close_cases epsilon (d / suc n) (d % suc n) (suc n) k (mod_fact d n)
        (rw (div-add-mod' d (suc n)) h)

-- A step above zero allows a value that is not below the minimum exactly if the distance of the
-- value from the minimum is closer than the tolerance to a multiple of the step.
pub validate_step_accepts :
    (epsilon : ℕ) (m : ℤ) (d n : ℕ)
    → (validate_step epsilon (finite (m +ℤ pos d)) m (pos (suc n)) ≡ ok tt)
      ↔ IsNear epsilon d (suc n)
unfolding validate_step check_remainder rem_ℤ
validate_step_accepts epsilon m d n = rw (+ℤ-ℤ_cancel m d) (
  λ e. IsNear-remainder epsilon d n (ground (arith, e)),
  λ near. rw (remainder-near epsilon d n near) refl,
)
