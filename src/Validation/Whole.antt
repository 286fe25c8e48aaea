-- ===== src/Validation/Whole.antt =====
-- What the checks of custom_components/hdg_boiler/helpers/validation_utils.py mean for whole numbers.
use native.Mathlib.Nat.{
  add-mul, mul_assoc, mul-lt-mul_of_pos_right, mul-pos, lt_of_mul-lt-mul_right,
}
use native.Mathlib.Decide.{dec_le}
use hdg_bavaria_homeassistan.Prelude.{
  false, ℕ, suc, ◌+◌, ◌-◌, ◌*◌, ◌<◌, ◌≤◌, ◌≡◌, ◌↔◌, refl, ap, ◌∙◌, Bool, true, ltb, arith, some,
  sym,
}
use hdg_bavaria_homeassistan.Models.{ℤ, pos}
use hdg_bavaria_homeassistan.Integers.{
  pos_part, neg_part, ◌+ℤ◌, ◌≤ℤ◌, ltb_ℤ, times, times_parts, +ℤ_parts, eq_of_parts,
}
use hdg_bavaria_homeassistan.Validation.{
  finite, ok, Reason, below_minimum, above_maximum, Checked, ◌and_then◌, validate_step, tenth,
  units, validate_range, check_minimum, check_maximum, is_below, is_above, step_when, refuse_if,
  validate_value_range_and_step,
}
use hdg_bavaria_homeassistan.Validation.Step.{gap, validate_step_accepts}

lt-mul_iff : (a b k : ℕ) → (a * suc k < b * suc k) ↔ (a < b)
lt-mul_iff a b k =
    (λ h. lt_of_mul-lt-mul_right (suc k) h, λ h. mul-lt-mul_of_pos_right h (omega arith))

ltb-mul : (a b k : ℕ) → ltb (a * suc k) (b * suc k) ≡ ltb a b
ltb-mul a b k = ground (arith, lt-mul_iff a b k)

ltb-times : (a b : ℤ) (k : ℕ) → ltb_ℤ (times a (suc k)) (times b (suc k)) ≡ ltb_ℤ a b
ltb-times a b k =
    let (pa, na) = times_parts a (suc k) in
    let (pb, nb) = times_parts b (suc k) in
    rw
      (
        pa,
        na,
        pb,
        nb,
        sym (add-mul (pos_part a) (neg_part b) (suc k)),
        sym (add-mul (pos_part b) (neg_part a) (suc k)),
      )
      (ltb-mul (pos_part a + neg_part b) (pos_part b + neg_part a) k)

pub times-times : (a : ℤ) (j k : ℕ) → times (times a j) k ≡ times a (j * k)
times-times a j k =
    let (p, n) = times_parts (times a j) k in
    let (p', n') = times_parts a j in
    let (p'', n'') = times_parts a (j * k) in
    eq_of_parts (times (times a j) k) (times a (j * k))
      (rw (p, n, p', n', p'', n'', mul_assoc (pos_part a) j k, mul_assoc (neg_part a) j k) refl)

times-+ℤ : (a b : ℤ) (k : ℕ) → times (a +ℤ b) k ≡ times a k +ℤ times b k
times-+ℤ a b k =
    let scaled = ap (λ x. x * k) (+ℤ_parts a b) in
    eq_of_parts (times (a +ℤ b) k) (times a k +ℤ times b k) (
      grind (
        arith,
        scaled,
        times_parts (a +ℤ b) k,
        times_parts a k,
        times_parts b k,
        +ℤ_parts (times a k) (times b k),
      ))

-- Numbers of units that are multiples of a tenth.
gap-mul : (a b k : ℕ) → gap (a * k) (b * k) ≡ gap a b * k
gap-mul a b k = elim (dec_le a b) [
  | yes le ↦
      let split : b * k ≡ a * k + (b - a) * k =
        ap (λ x. x * k) (omega arith) ∙ add-mul a (b - a) k in
      let same : gap a b ≡ b - a = omega arith in rw (same) (omega (arith, split))
  | no gt ↦
      let split : a * k ≡ b * k + (a - b) * k =
        ap (λ x. x * k) (omega arith) ∙ add-mul b (a - b) k in
      let same : gap a b ≡ a - b = omega arith in rw (same) (omega (arith, split))
]

near_tenths : (epsilon d n k t : ℕ) → epsilon ≤ t → gap (d * t) (k * (n * t)) < epsilon → d ≡ k * n
near_tenths epsilon d n k t le h =
    let scaled : gap (d * t) (k * (n * t)) ≡ gap d (k * n) * t =
      ap (λ x. gap (d * t) x) (sym (mul_assoc k n t)) ∙ gap-mul d (k * n) t in
    let small : gap d (k * n) < 1 =
      lt_of_mul-lt-mul_right t {m = gap d (k * n)} {n = 1} (omega (arith, scaled)) in
    omega (arith, small)

times-pos : (d k : ℕ) → times (pos d) k ≡ pos (d * k)
times-pos d k =
    let (p, n) = times_parts (pos d) k in
    eq_of_parts (times (pos d) k) (pos (d * k)) (omega (arith, p, n))

-- A step above zero allows what lies a multiple of the step above the minimum.
step_allows_multiple :
    (epsilon d n t : ℕ) (m : ℤ)
    → 0 < epsilon
    → epsilon ≤ suc t
    → (validate_step epsilon
          (finite (times (m +ℤ pos d) (suc t)))
          (times m (suc t))
          (times (pos (suc n)) (suc t))
        ≡ ok tt)
      ↔ ((k : ℕ) × (d ≡ k * suc n))
step_allows_multiple epsilon d n t m above le =
    let step_is : suc n * suc t ≡ suc (suc n * suc t - 1) =
      omega (arith, mul-pos {m = suc n} {n = suc t} (omega arith) (omega arith)) in
    let value_is =
      times-+ℤ m (pos d) (suc t) ∙ ap (λ x. times m (suc t) +ℤ x) (times-pos d (suc t)) in
    let (near, allowed) =
      validate_step_accepts epsilon (times m (suc t)) (d * suc t) (suc n * suc t - 1) in
    rw (value_is, times-pos (suc n) (suc t), step_is)
      (
        λ e.
            let (k, h) = near e in
            (k, near_tenths epsilon d (suc n) k (suc t) le (rw (ap (λ x. k * x) step_is) h)),
        λ (k, h).
            let meets =
              ap (λ x. x * suc t) h ∙ mul_assoc k (suc n) (suc t) ∙ ap (λ x. k * x) step_is in
            allowed (k, omega (arith, meets)),
      )

offset : ℤ → ℤ → ℕ
offset m w = pos_part w + neg_part m - (pos_part m + neg_part w)

offset_is : (m w : ℤ) → m ≤ℤ w → w ≡ m +ℤ pos (offset m w)
unfolding offset
offset_is m w le =
    eq_of_parts w (m +ℤ pos (offset m w)) (omega (arith, +ℤ_parts m (pos (offset m w)), le))

offset_unique : (m w : ℤ) (d : ℕ) → w ≡ m +ℤ pos d → offset m w ≡ d
unfolding offset
offset_unique m w d e = rw (e) (omega (arith, +ℤ_parts m (pos d)))

step_allows :
    (epsilon n t : ℕ) (m w : ℤ)
    → 0 < epsilon
    → epsilon ≤ suc t
    → m ≤ℤ w
    → (validate_step epsilon
          (finite (times w (suc t)))
          (times m (suc t))
          (times (pos (suc n)) (suc t))
        ≡ ok tt)
      ↔ ((k : ℕ) × (w ≡ m +ℤ pos (k * suc n)))
step_allows epsilon n t m w above small le =
    let (from, to) = step_allows_multiple epsilon (offset m w) n t m above small in
    let w_is = offset_is m w le in
    (
      λ e. let (k, d_is) = from (rw (sym w_is) e) in (k, w_is ∙ ap (λ d. m +ℤ pos d) d_is),
      λ (k, e). rw (w_is) (to (k, offset_unique m w (k * suc n) e)),
    )

both_bounds :
    (b c : Bool) (r q : Reason) (rest : Checked Unit)
    → (((refuse_if (some b) r and_then λ _. refuse_if (some c) q) and_then λ _. rest) ≡ ok tt)
      ↔ ((b ≡ false) × (c ≡ false) × (rest ≡ ok tt))
unfolding refuse_if
both_bounds false false r q rest = ground arith
both_bounds false true r q rest = ground arith
both_bounds true c r q rest = ground arith

validate_scaled :
    (epsilon n t : ℕ) (w m M : ℤ)
    → 0 < epsilon
    → epsilon ≤ suc t
    → (((refuse_if (some (ltb_ℤ (times w (suc t)) (times m (suc t)))) below_minimum and_then λ _.
            refuse_if (some (ltb_ℤ (times M (suc t)) (times w (suc t)))) above_maximum)
          and_then λ _.
              validate_step epsilon
                (finite (times w (suc t)))
                (times m (suc t))
                (times (pos (suc n)) (suc t)))
        ≡ ok tt)
      ↔ ((m ≤ℤ w) × (w ≤ℤ M) × (k : ℕ) × (w ≡ m +ℤ pos (k * suc n)))
validate_scaled epsilon n t w m M above small =
    let step =
      validate_step epsilon (finite (times w (suc t))) (times m (suc t))
        (times (pos (suc n)) (suc t)) in
    let (refused, accepted) =
      both_bounds (ltb_ℤ w m) (ltb_ℤ M w) below_minimum above_maximum step in
    rw (ltb-times w m t, ltb-times M w t)
      (
        λ e.
            let (b, c, s) = refused e in
            let le : m ≤ℤ w = ground (arith, b) in
            let (k, at) = (step_allows epsilon n t m w above small le).0 s in
            (le, ground (arith, c), k, at),
        λ (le, ge, k, e). accepted (
          ground (arith, le),
          ground (arith, ge),
          (step_allows epsilon n t m w above small le).1 (k, e),
        ),
      )

-- A number of whole tenths
pub validate_tenths :
    (e : ℕ) (w m M : ℤ) (n : ℕ)
    → (validate_value_range_and_step
          (suc e)
          (finite (times w (tenth (suc e))))
          (some m)
          (some M)
          (some (pos (suc n)))
        ≡ ok tt)
      ↔ ((m ≤ℤ w) × (w ≤ℤ M) × (k : ℕ) × (w ≡ m +ℤ pos (k * suc n)))
unfolding validate_value_range_and_step validate_range units check_minimum check_maximum is_below
    is_above step_when
validate_tenths e w m M n =
    let t_is : tenth (suc e) ≡ suc (100_000_000 * suc e - 1) = omega arith in
    rw (t_is)
      (validate_scaled (suc e) n (100_000_000 * suc e - 1) w m M (omega arith) (omega arith))
