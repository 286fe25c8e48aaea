-- ===== src/Integers/RoundTrip.antt =====
-- The text of an integer and back, as custom_components/hdg_boiler/helpers/parsers.py prints it.
use hdg_bavaria_homeassistan.Prelude.{suc, ◌≡◌, Text, [], ◌∷◌, ◌==◌, arith, if◌then◌else◌, ap, ◌∙◌}
use hdg_bavaria_homeassistan.Models.{ℤ, pos, negsuc}
use hdg_bavaria_homeassistan.Protocol.{decimal}
use hdg_bavaria_homeassistan.Protocol.Decimal.{
  digits_value, digits_value-decimal, StartsWithDigit, decimal-StartsWithDigit,
}
use hdg_bavaria_homeassistan.Integers.{sub_ℕ, int_text}

-- The integer that a text spells: digits, after a minus sign or not.
abbrev pub read_int : Text → ℤ
read_int [] = pos 0
read_int (c ∷ s) = if c == b'-' then sub_ℕ 0 (digits_value 0 s) else pos (digits_value 0 (c ∷ s))

read_int-digits : (s : Text) → StartsWithDigit s → read_int s ≡ pos (digits_value 0 s)
read_int-digits [] h = absurd h
read_int-digits (c ∷ s) h = ground (arith, h)

-- Reading the text of an integer gives it back.
read_int-int_text : (z : ℤ) → read_int (int_text z) ≡ z
unfolding int_text
read_int-int_text (pos n) =
    read_int-digits (decimal n) (decimal-StartsWithDigit n) ∙ ap pos (digits_value-decimal n)
read_int-int_text (negsuc n) = rw (digits_value-decimal (suc n)) (ground arith)
