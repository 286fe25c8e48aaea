-- ===== src/Polling/Backoff.antt =====
-- The delays between the retries of a polling group:
-- custom_components/hdg_boiler/coordinator.py
use hdg_bavaria_homeassistan.Prelude.{
  ℕ, suc, ◌+◌, ◌-◌, ◌*◌, ◌^◌, ◌≤◌, ◌<◌, ◌≡◌, ap, ◌∙◌, none, some, arith, ltb, if◌then◌else◌,
}
use native.Mathlib.Nat.{pow-suc, one-le-pow}
use hdg_bavaria_homeassistan.Polling.{
  polling_retry_max_delay, polling_retry_initial_delay, retry_delay, float_power, capped,
}

power_pos : (n : ℕ) → 1 ≤ 2 ^ n
power_pos n = one-le-pow n 2 (omega arith)

-- The delay as a function of the failures before.
delay_of : ℕ → ℕ
delay_of p = if ltb 300_000 (60_000 * p) then 300_000 else 60_000 * p

suc_pred : (n : ℕ) → suc n - 1 ≡ n
suc_pred n = omega arith

retry_delay_lem : (n : ℕ) → n < 1024 → retry_delay (suc n) ≡ some (delay_of (2 ^ n))
unfolding retry_delay delay_of float_power capped
retry_delay_lem n small =
    ap (λ k. elim (float_power k) [ none ↦ none | some power ↦ some (capped (60_000 * power)) ])
      (suc_pred n)
    ∙ ground (arith, small)

retry_delay_overflow : (n : ℕ) → 1025 ≤ n → retry_delay n ≡ none
unfolding retry_delay float_power
retry_delay_overflow n big = ground (arith, big)

-- Up to the attempt 1024, the delay before a retry is at least the initial delay and at most the
-- maximal one, does not shrink with the attempts, and at most doubles from one to the next; from
-- the attempt 1025 on, computing the delay raises an OverflowError.
pub retry_delay_bounds :
    (n more : ℕ)
    → n < 1023
    → (d e : ℕ) × (retry_delay (suc n) ≡ some d)
      × (retry_delay (suc (suc n)) ≡ some e)
      × (polling_retry_initial_delay ≤ d)
      × (d ≤ e)
      × (e ≤ 2 * d)
      × (e ≤ polling_retry_max_delay)
      × (retry_delay (1025 + more) ≡ none)
unfolding delay_of
retry_delay_bounds n more small =
    let p = power_pos n in
    let twice : 2 ^ suc n ≡ 2 ^ n * 2 = pow-suc 2 n in
    (
      delay_of (2 ^ n),
      delay_of (2 ^ suc n),
      retry_delay_lem n (omega (arith, small)),
      retry_delay_lem (suc n) (omega (arith, small)),
      ground (arith, p),
      ground (arith, p, twice),
      ground (arith, p, twice),
      ground (arith, p, twice),
      retry_delay_overflow (1025 + more) (omega arith),
    )
