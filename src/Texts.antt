-- ===== src/Texts.antt =====
-- What the program uses of Python's `str` and `re`, on the characters of Latin-1 (code points below
-- 256; the boiler's German labels use no others). A larger code point is left as it is, and is
-- taken for neither a digit nor white space.
use hdg_bavaria_homeassistan.Prelude.{
  ℕ, zero, suc, ◌+◌, ◌-◌, Text, Bool, true, false, not, ◌&&◌, ◌||◌, List, [], ◌∷◌, ◌++◌, leb, ◌==◌,
  if◌then◌else◌,
}
use mathlib.Core.List.{reverse}

-- `\d`
unfoldable pub is_decimal : ℕ → Bool
is_decimal c = leb b'0' c && leb c b'9'

-- the characters of `str.isdigit`: the superscripts 1, 2 and 3 too
unfoldable pub is_digit : ℕ → Bool
unfolding is_decimal
is_digit c = is_decimal c || c == 178 || c == 179 || c == 185

-- `\s` and the characters that `strip` takes away
unfoldable pub is_space : ℕ → Bool
is_space c = leb 9 c && leb c 13 || leb 28 c && leb c 32 || c == 133 || c == 160

unfoldable pub lstrip : Text → Text
lstrip [] = []
lstrip (c ∷ s) = let rest = lstrip s in if is_space c then rest else c ∷ s

unfoldable pub strip : Text → Text
unfolding lstrip is_space
strip s = reverse (lstrip (reverse (lstrip s)))

-- `str.lower` of one character
unfoldable pub lower : ℕ → ℕ
lower c =
    if leb b'A' c && leb c b'Z'
    then c + 32
    else if leb 192 c && leb c 222 && not (c == 215)
    then c + 32
    else c

-- `str.upper` of one character; sharp s becomes two letters
upper : ℕ → Text
upper c =
    if leb b'a' c && leb c b'z'
    then (c - 32) ∷ []
    else if leb 224 c && leb c 254 && not (c == 247)
    then (c - 32) ∷ []
    else if c == 223
    then b'S' ∷ b'S' ∷ []
    else if c == 255
    then 376 ∷ []
    else if c == 181
    then 924 ∷ []
    else c ∷ []

unfoldable pub upper_text : Text → Text
unfolding upper
upper_text [] = []
upper_text (c ∷ s) = upper c ++ upper_text s

unfoldable pub lower_text : Text → Text
unfolding lower
lower_text [] = []
lower_text (c ∷ s) = lower c ∷ lower_text s

-- `s.startswith(p)`, `s.endswith(p)`, `p in s`
unfoldable pub starts_with : Text → Text → Bool
starts_with s [] = true
starts_with [] (d ∷ p) = false
starts_with (c ∷ s) (d ∷ p) = c == d && starts_with s p

unfoldable pub ends_with : Text → Text → Bool
unfolding starts_with
ends_with s p = starts_with (reverse s) (reverse p)

unfoldable pub contains : Text → Text → Bool
unfolding starts_with
contains [] p = starts_with [] p
contains (c ∷ s) p = starts_with (c ∷ s) p || contains s p

-- `sep.join(parts)`
unfoldable pub join : Text → List Text → Text
join sep [] = []
join sep (p ∷ []) = p
join sep (p ∷ rest) = p ++ sep ++ join sep rest

-- `s[:n]`
unfoldable pub first_chars : ℕ → Text → Text
first_chars zero s = []
first_chars (suc n) [] = []
first_chars (suc n) (c ∷ s) = c ∷ first_chars n s
