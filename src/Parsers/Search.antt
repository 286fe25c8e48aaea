-- ===== src/Parsers/Search.antt =====
-- The number that is found in a text: `_extract_numeric_string` of
-- custom_components/hdg_boiler/helpers/parsers.py
use mathlib.Core.List.{append-nil}
use hdg_bavaria_homeassistan.Prelude.{
  ℕ, ◌≡◌, refl, ap, ◌∙◌, Text, true, false, ◌||◌, some, all, all_cons, [], ◌∷◌, ◌++◌, ◌==◌, arith,
}
use hdg_bavaria_homeassistan.Texts.{is_decimal}
use hdg_bavaria_homeassistan.Parsers.Extract.{
  strip_units, leading_digits, after_digits, fraction, match_unsigned, match_number, search_number,
  extract_numeric_string, comma_to_dot, has, drop_spaces, normalize_numeric_string,
  normalize_spaceless,
}
use hdg_bavaria_homeassistan.Parsers.Numeric.{
  has-append, has-decimal, comma_to_dot-append, comma_to_dot-none,
}
use hdg_bavaria_homeassistan.Parsers.Stripped.{
  is_numeric, strip_units-number, is_common_unit, strip_units-unit, strip-numeric_all, all-append,
  not_dashes,
}

leading-digits :
    (ds rest : Text)
    → all is_decimal ds ≡ true
    → (leading_digits (ds ++ b'.' ∷ rest) ≡ ds) × (after_digits (ds ++ b'.' ∷ rest) ≡ b'.' ∷ rest)
unfolding leading_digits after_digits is_decimal
leading-digits [] rest a = (refl, refl)
leading-digits (d ∷ ds) rest a = ground (arith, leading-digits ds rest)

leading-all : (ds : Text) → all is_decimal ds ≡ true → leading_digits ds ≡ ds
unfolding leading_digits
leading-all [] a = refl
leading-all (d ∷ ds) a = ground (arith, leading-all ds)

unsigned : (d : ℕ) → is_decimal d ≡ true → (d == b'-' || d == b'+') ≡ false
unfolding is_decimal
unsigned d h = ground (arith, h)

match-unsigned-decimal :
    (e : ℕ) (ds fs : Text)
    → all is_decimal ds ≡ true
    → all is_decimal (e ∷ fs) ≡ true
    → match_unsigned (ds ++ b'.' ∷ e ∷ fs) ≡ ds ++ b'.' ∷ e ∷ fs
unfolding match_unsigned fraction
match-unsigned-decimal e ds fs a f =
    let (leading, behind) = leading-digits ds (e ∷ fs) a in
    rw (leading, behind) (rw (leading-all (e ∷ fs) f) refl)

match-unsigned_text :
    (c : ℕ) (s : Text) → is_decimal c ≡ true → match_number (c ∷ s) ≡ match_unsigned (c ∷ s)
unfolding match_number
match-unsigned_text c s h = ground (arith, unsigned c h)

search-match :
    (c d : ℕ) (s ds : Text) → match_number (c ∷ s) ≡ d ∷ ds → search_number (c ∷ s) ≡ some (d ∷ ds)
unfolding search_number
search-match c d s ds h = ground (arith, h)

search-decimal :
    (d e : ℕ) (ds fs : Text)
    → all is_decimal (d ∷ ds) ≡ true
    → all is_decimal (e ∷ fs) ≡ true
    → search_number (d ∷ ds ++ b'.' ∷ e ∷ fs) ≡ some (d ∷ ds ++ b'.' ∷ e ∷ fs)
search-decimal d e ds fs a f = search-match d d (ds ++ b'.' ∷ e ∷ fs) (ds ++ b'.' ∷ e ∷ fs) (
    match-unsigned_text d (ds ++ b'.' ∷ e ∷ fs) (all_cons is_decimal d ds a).0
    ∙ match-unsigned-decimal e (d ∷ ds) fs a f)

decimal-numeric : (s : Text) → all is_decimal s ≡ true → all is_numeric s ≡ true
decimal-numeric [] a = refl
decimal-numeric (c ∷ s) a = ground (arith, decimal-numeric s, a)

drop_spaces-numeric : (s : Text) → all is_numeric s ≡ true → drop_spaces s ≡ s
unfolding drop_spaces is_decimal
drop_spaces-numeric [] a = refl
drop_spaces-numeric (c ∷ s) a = ground (arith, drop_spaces-numeric s)

comma_is_numeric :
    (ds fs : Text)
    → all is_decimal ds ≡ true
    → all is_decimal fs ≡ true
    → all is_numeric (ds ++ b',' ∷ fs) ≡ true
unfolding is_decimal
comma_is_numeric ds fs a f =
    all-append is_numeric ds (b',' ∷ fs) (decimal-numeric ds a) (decimal-numeric fs f)

-- The decimal comma becomes a point.
normalize-comma :
    (ds fs : Text)
    → all is_decimal ds ≡ true
    → all is_decimal fs ≡ true
    → normalize_numeric_string (ds ++ b',' ∷ fs) ≡ ds ++ b'.' ∷ fs
unfolding normalize_numeric_string normalize_spaceless comma_to_dot is_decimal has
normalize-comma ds fs a f =
    let spaceless : drop_spaces (ds ++ b',' ∷ fs) ≡ ds ++ b',' ∷ fs =
      drop_spaces-numeric (ds ++ b',' ∷ fs) (comma_is_numeric ds fs a f) in
    let no_point : has b'.' (ds ++ b',' ∷ fs) ≡ false =
      has-append b'.' ds (b',' ∷ fs)
      ∙ rw (has-decimal b'.' ds refl a) (has-decimal b'.' fs refl f) in
    let comma : has b',' (ds ++ b',' ∷ fs) ≡ true =
      has-append b',' ds (b',' ∷ fs) ∙ rw (has-decimal b',' ds refl a) refl in
    rw (spaceless, no_point, comma)
      (comma_to_dot-append ds (b',' ∷ fs) (has-decimal b',' ds refl a)
        ∙ ap (λ s. ds ++ b'.' ∷ s) (comma_to_dot-none fs (has-decimal b',' fs refl f)))

-- A decimal number written with a comma, followed by a space and a unit of the known ones, is
-- read as that number with a point.
pub number_with_unit_is_read :
    (d e : ℕ) (ds fs u : Text)
    → all is_decimal (d ∷ ds) ≡ true
    → all is_decimal (e ∷ fs) ≡ true
    → is_common_unit u ≡ true
    → extract_numeric_string ((d ∷ ds ++ b',' ∷ e ∷ fs) ++ b' ' ∷ u)
      ≡ some (d ∷ ds ++ b'.' ∷ e ∷ fs)
unfolding extract_numeric_string is_decimal
number_with_unit_is_read d e ds fs u a f h =
    let n = d ∷ ds ++ b',' ∷ e ∷ fs in
    let numeric : all is_numeric n ≡ true = comma_is_numeric (d ∷ ds) (e ∷ fs) a f in
    let bare : strip_units (n ++ b' ' ∷ u) ≡ n =
      strip_units-number n (b' ' ∷ u) numeric
      ∙ ap (λ s. n ++ s) (strip_units-unit u h)
      ∙ append-nil n in
    let normal : normalize_numeric_string n ≡ d ∷ ds ++ b'.' ∷ e ∷ fs =
      normalize-comma (d ∷ ds) (e ∷ fs) a f in
    rw (not_dashes d ((ds ++ b',' ∷ e ∷ fs) ++ b' ' ∷ u) (all_cons is_decimal d ds a).0)
      (rw (bare, strip-numeric_all n numeric, normal) (search-decimal d e ds fs a f))
