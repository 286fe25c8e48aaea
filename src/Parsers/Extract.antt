-- ===== src/Parsers/Extract.antt =====
-- The number in a text: `_extract_numeric_string` and `_normalize_numeric_string` of
-- custom_components/hdg_boiler/helpers/parsers.py, with their two regular expressions.
use hdg_bavaria_homeassistan.Prelude.{
  ℕ, zero, suc, Text, codes, Bool, ◌&&◌, ◌||◌, Option, none, some, [], ◌∷◌, ◌++◌, any, ltb, ◌==◌,
  text_eq, if◌then◌else◌,
}
use hdg_bavaria_homeassistan.Texts.{is_decimal, strip, lstrip, lower_text}
use hdg_bavaria_homeassistan.Parsers.Units.{common_units}

-- `value_str.replace(" ", "").replace("\u00a0", "")`
unfoldable pub drop_spaces : Text → Text
drop_spaces [] = []
drop_spaces (c ∷ s) = let rest = drop_spaces s in if c == b' ' || c == 160 then rest else c ∷ rest

unfoldable pub has : ℕ → Text → Bool
has d = any (λ c. c == d)

-- `.replace(d, "")`
unfoldable pub remove : ℕ → Text → Text
remove d [] = []
remove d (c ∷ s) = let rest = remove d s in if c == d then rest else c ∷ rest

-- `.replace(",", ".")`
unfoldable pub comma_to_dot : Text → Text
comma_to_dot [] = []
comma_to_dot (c ∷ s) = (if c == b',' then b'.' else c) ∷ comma_to_dot s

-- `s.rfind(d) + 1`
unfoldable pub rfind : ℕ → Text → ℕ
rfind d [] = 0
rfind d (c ∷ s) = elim (rfind d s) [ zero ↦ if c == d then 1 else 0 | suc n ↦ suc (suc n) ]

-- `_normalize_numeric_string`
unfoldable pub normalize_spaceless : Text → Text
unfolding has remove comma_to_dot rfind
normalize_spaceless s =
    if has b'.' s && has b',' s
    then (if ltb (rfind b'.' s) (rfind b',' s) then comma_to_dot (remove b'.' s) else remove b',' s)
    else if has b',' s
    then comma_to_dot s
    else s

unfoldable pub normalize_numeric_string : Text → Text
unfolding normalize_spaceless drop_spaces
normalize_numeric_string value_str = normalize_spaceless (drop_spaces value_str)

-- `_COMMON_UNITS_REGEX.sub("", text)`: the earliest place from which only white space and a unit are
-- left
unfoldable pub is_unit : Text → Bool
unfolding lower_text text_eq common_units
is_unit s = any (λ unit. text_eq (lower_text unit) (lower_text s)) common_units

unfoldable pub strip_units : Text → Text
unfolding is_unit lstrip
strip_units [] = []
strip_units (c ∷ s) = let rest = strip_units s in if is_unit (lstrip (c ∷ s)) then [] else c ∷ rest

-- `_NUMERIC_PART_REGEX.search(text)`
unfoldable pub leading_digits : Text → Text
leading_digits [] = []
leading_digits (c ∷ s) = let rest = leading_digits s in if is_decimal c then c ∷ rest else []

unfoldable pub after_digits : Text → Text
after_digits [] = []
after_digits (c ∷ s) = let rest = after_digits s in if is_decimal c then rest else c ∷ s

-- what follows the digits: a separator with more digits, if there are some
unfoldable pub fraction : Text → Text
unfolding leading_digits
fraction [] = []
fraction (c ∷ s) =
    if c == b'.' || c == b','
    then (elim (leading_digits s) [ [] ↦ [] | d ∷ ds ↦ c ∷ d ∷ ds ])
    else []

unfoldable pub match_unsigned : Text → Text
unfolding leading_digits after_digits fraction
match_unsigned s = leading_digits s ++ fraction (after_digits s)

pub with_sign : ℕ → Text → Text
with_sign c [] = []
with_sign c (d ∷ ds) = c ∷ d ∷ ds

-- the match at the start of the text, which is never empty; `[]` stands for no match
unfoldable pub match_number : Text → Text
unfolding match_unsigned with_sign
match_number [] = []
match_number (c ∷ s) =
    if c == b'-' || c == b'+' then with_sign c (match_unsigned s) else match_unsigned (c ∷ s)

unfoldable pub search_number : Text → Option Text
unfolding match_number
search_number [] = none
search_number (c ∷ s) =
    let rest = search_number s in elim (match_number (c ∷ s)) [ [] ↦ rest | d ∷ ds ↦ some (d ∷ ds) ]

-- `_extract_numeric_string`
unfoldable pub extract_numeric_string : Text → Option Text
unfolding search_number normalize_numeric_string strip strip_units text_eq
extract_numeric_string raw_value =
    if text_eq (strip raw_value) (codes "---")
    then none
    else search_number (normalize_numeric_string (strip (strip_units raw_value)))
