-- ===== src/Protocol/Decimal.antt =====
-- `str` of a number, as custom_components/hdg_boiler/api/protocols.py and
-- custom_components/hdg_boiler/helpers/parsers.py use it.
use mathlib.Core.List.{foldl}
use hdg_bavaria_homeassistan.Prelude.{
  ℕ, zero, suc, ◌+◌, ◌-◌, ◌*◌, ◌/◌, ◌%◌, ◌<◌, ◌≤◌, ◌≡◌, Text, [], ◌∷◌, arith,
}
use hdg_bavaria_homeassistan.Protocol.{decimal_from, decimal}

-- The number that the digits of a text spell behind `n`.
abbrev pub digits_value : ℕ → Text → ℕ
digits_value = foldl (λ n c. n * 10 + (c - b'0'))

digits_value-decimal_from :
    (fuel n : ℕ) (digits : Text)
    → n < fuel
    → digits_value 0 (decimal_from fuel n digits) ≡ digits_value n digits
unfolding decimal_from
digits_value-decimal_from zero n digits h = absurd (omega arith)
digits_value-decimal_from (suc fuel) n digits h =
    ground (arith, digits_value-decimal_from fuel (n / 10) ((b'0' + n % 10) ∷ digits))

-- The text of a number spells that number: the fuel is enough.
pub digits_value-decimal : (n : ℕ) → digits_value 0 (decimal n) ≡ n
unfolding decimal
digits_value-decimal n = digits_value-decimal_from (suc n) n [] (omega arith)

-- The first character is a digit.
abbrev pub StartsWithDigit : Text → Type 0
StartsWithDigit [] = ⊥
StartsWithDigit (c ∷ s) = (b'0' ≤ c) × (c ≤ b'9')

starts-decimal_from :
    (fuel n : ℕ) (digits : Text) → n < fuel → StartsWithDigit (decimal_from fuel n digits)
unfolding decimal_from
starts-decimal_from zero n digits h = absurd (omega arith)
starts-decimal_from (suc fuel) n digits h =
    ground (arith, starts-decimal_from fuel (n / 10) ((b'0' + n % 10) ∷ digits))

pub decimal-StartsWithDigit : (n : ℕ) → StartsWithDigit (decimal n)
unfolding decimal
decimal-StartsWithDigit n = starts-decimal_from (suc n) n [] (omega arith)
