-- ===== src/Redaction/Patterns.antt =====
-- The two kinds of regular expression that hide secrets in
-- custom_components/hdg_boiler/helpers/logging_utils.py: a text, or a MAC address, with no letter or
-- digit before it or behind it. A pattern is the list of what it takes at each place.
use hdg_bavaria_homeassistan.Prelude.{
  ℕ, zero, suc, ◌-◌, Text, codes, Bool, true, false, not, ◌&&◌, ◌||◌, List, [], ◌∷◌, ◌++◌, map,
  length, leb, ◌==◌,
}
use hdg_bavaria_homeassistan.Texts.{lower}

-- `[A-Za-z0-9]`
unfoldable pub is_alnum : ℕ → Bool
is_alnum c = leb b'A' c && leb c b'Z' || leb b'a' c && leb c b'z' || leb b'0' c && leb c b'9'

-- DIAGNOSTICS_REDACTED_PLACEHOLDER
abbrev pub placeholder : Text
placeholder = codes "**REDACTED**"

abbrev pub Pattern : Type 0
Pattern = List (ℕ → Bool)

-- `_compile_secret`: the secret without regard to case
unfoldable pub compile_secret : Text → Pattern
unfolding lower
compile_secret secret = map (λ d c. lower d == lower c) secret

-- `[0-9a-f]` without regard to case, and `[:-]`
unfoldable pub is_hex : ℕ → Bool
is_hex c = leb b'0' c && leb c b'9' || leb b'a' c && leb c b'f' || leb b'A' c && leb c b'F'

unfoldable pub is_separator : ℕ → Bool
is_separator c = c == b':' || c == b'-'

hex_pairs : ℕ → Pattern
unfolding is_hex is_separator
hex_pairs zero = is_hex ∷ is_hex ∷ []
hex_pairs (suc n) = is_hex ∷ is_hex ∷ is_separator ∷ hex_pairs n

-- `_MAC_RE`
unfoldable pub mac_pattern : Pattern
unfolding hex_pairs
mac_pattern = hex_pairs 5

-- Is the pattern at the start of the text, with no letter or digit behind it?
unfoldable pub matches : Pattern → Text → Bool
unfolding is_alnum
matches [] [] = true
matches [] (c ∷ s) = not (is_alnum c)
matches (r ∷ p) [] = false
matches (r ∷ p) (c ∷ s) = r c && matches p s

-- `pattern.sub(placeholder, text)`; the flag says whether the character before is a letter or a
-- digit, and the number counts the characters of a match that are still to pass over.
unfoldable pub sub_from : Pattern → Bool → ℕ → Text → Text
unfolding matches is_alnum
sub_from p before n [] = []
sub_from p before (suc n) (c ∷ s) = sub_from p (is_alnum c) n s
sub_from p before zero (c ∷ s) = elim (not before && matches p (c ∷ s)) [
  | true ↦ placeholder ++ sub_from p (is_alnum c) (length p - 1) s
  | false ↦ c ∷ sub_from p (is_alnum c) 0 s
]

unfoldable pub sub_pattern : Pattern → Text → Text
unfolding sub_from
sub_pattern p = sub_from p false 0
