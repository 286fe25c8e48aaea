-- ===== src/Parsers/Stripped.antt =====
-- A decimal number with a unit behind it: `_extract_numeric_string` of
-- custom_components/hdg_boiler/helpers/parsers.py
use mathlib.Core.Path.{subst}
use mathlib.Core.List.{reverse, reverse-cons, reverse-reverse, reverse-append}
use hdg_bavaria_homeassistan.Prelude.{
  ℕ, ◌≡◌, refl, ap, Text, codes, Bool, true, false, not, ◌||◌, List, all, any, all_cons, Bool-cases,
  inl, inr, [], ◌∷◌, ◌++◌, ◌==◌, arith, text_eq, text_eq_iff,
}
use hdg_bavaria_homeassistan.Texts.{is_decimal, is_space, lstrip, strip, lower, lower_text}
use hdg_bavaria_homeassistan.Parsers.Extract.{is_unit, strip_units}
use hdg_bavaria_homeassistan.Parsers.Units.{common_units}

-- The characters of a number with a decimal comma.
abbrev pub is_numeric : ℕ → Bool
is_numeric c = is_decimal c || c == b','

abbrev starts_numeric : Text → Bool
starts_numeric [] = true
starts_numeric (c ∷ s) = is_numeric c

units_are_words : all (λ u. not (starts_numeric (lower_text u))) common_units ≡ true
unfolding lower_text is_decimal common_units
units_are_words = refl

no_unit_starts :
    (units : List Text) (s : Text)
    → all (λ u. not (starts_numeric (lower_text u))) units ≡ true
    → starts_numeric (lower_text s) ≡ true
    → any (λ u. text_eq (lower_text u) (lower_text s)) units ≡ false
no_unit_starts [] s h n = refl
no_unit_starts (u ∷ units) s h n =
    ground (arith, no_unit_starts units s, text_eq_iff (lower_text u) (lower_text s))

lstrip-numeric : (c : ℕ) (s : Text) → is_numeric c ≡ true → lstrip (c ∷ s) ≡ c ∷ s
unfolding lstrip is_decimal is_space
lstrip-numeric c s h = ground (arith, h)

lower-numeric :
    (c : ℕ) (s : Text) → is_numeric c ≡ true → starts_numeric (lower_text (c ∷ s)) ≡ true
unfolding lower_text lower is_decimal
lower-numeric c s h = ground (arith, h)

not_unit : (c : ℕ) (s : Text) → is_numeric c ≡ true → is_unit (lstrip (c ∷ s)) ≡ false
unfolding is_unit
not_unit c s h =
    rw (lstrip-numeric c s h)
      (no_unit_starts common_units (c ∷ s) units_are_words (lower-numeric c s h))

pub strip_units-number :
    (n rest : Text) → all is_numeric n ≡ true → strip_units (n ++ rest) ≡ n ++ strip_units rest
unfolding strip_units
strip_units-number [] rest a = refl
strip_units-number (c ∷ n) rest a =
    let (first, others) = all_cons is_numeric c n a in
    rw (not_unit c (n ++ rest) first) (ap (λ s. c ∷ s) (strip_units-number n rest others))

units_match : all (λ u. is_unit (lstrip u)) common_units ≡ true
unfolding is_unit lstrip common_units lower_text text_eq is_space lower
units_match = refl

unfoldable pub is_common_unit : Text → Bool
unfolding common_units text_eq
is_common_unit u = any (λ v. text_eq v u) common_units

all-listed :
    (p : Text → Bool) (u : Text) (xs : List Text)
    → all p xs ≡ true
    → any (λ v. text_eq v u) xs ≡ true
    → p u ≡ true
all-listed p u [] h k = absurd (cc)
all-listed p u (x ∷ xs) h k = elim (Bool-cases (text_eq x u)) [
  | inl e ↦ subst (λ v. p v ≡ true) ((text_eq_iff x u).0 e) (all_cons p x xs h).0
  | inr e ↦ all-listed p u xs (all_cons p x xs h).1 (ground (arith, e, k))
]

pub strip_units-unit : (u : Text) → is_common_unit u ≡ true → strip_units (b' ' ∷ u) ≡ []
unfolding strip_units lstrip is_common_unit is_space
strip_units-unit u h = rw (all-listed (λ v. is_unit (lstrip v)) u common_units units_match h) refl

-- strip leaves digits alone
lstrip-numeric_all : (n : Text) → all is_numeric n ≡ true → lstrip n ≡ n
unfolding lstrip
lstrip-numeric_all [] a = refl
lstrip-numeric_all (c ∷ n) a = lstrip-numeric c n (all_cons is_numeric c n a).0

pub all-append :
    (p : ℕ → Bool) (s t : Text) → all p s ≡ true → all p t ≡ true → all p (s ++ t) ≡ true
all-append p [] t h k = k
all-append p (c ∷ s) t h k = ground (arith, all-append p s t, h, k)

all-reverse : (p : ℕ → Bool) (s : Text) → all p s ≡ true → all p (reverse s) ≡ true
all-reverse p [] h = refl
all-reverse p (c ∷ s) h =
    let (first, others) = all_cons p c s h in
    rw (reverse-cons c s)
      (all-append p (reverse s) (c ∷ []) (all-reverse p s others) (ground (arith, first)))

pub strip-numeric_all : (n : Text) → all is_numeric n ≡ true → strip n ≡ n
unfolding strip
strip-numeric_all n a =
    rw (lstrip-numeric_all n a, lstrip-numeric_all (reverse n) (all-reverse is_numeric n a))
      (reverse-reverse n)

lstrip-last : (d : ℕ) (s : Text) → is_space d ≡ false → lstrip (s ++ d ∷ []) ≡ lstrip s ++ d ∷ []
unfolding lstrip
lstrip-last d [] h = rw (h) refl
lstrip-last d (c ∷ s) h = ground (arith, lstrip-last d s h)

numeric-space : (d : ℕ) → is_numeric d ≡ true → is_space d ≡ false
unfolding is_decimal is_space
numeric-space d h = ground (arith, h)

-- What starts with a numeric character still does when it is stripped.
strip-head : (d : ℕ) (s : Text) → is_numeric d ≡ true → (t : Text) × (strip (d ∷ s) ≡ d ∷ t)
unfolding strip
strip-head d s h = (
  reverse (lstrip (reverse s)),
  rw
      (
        lstrip-numeric d s h,
        reverse-cons d s,
        lstrip-last d (reverse s) (numeric-space d h),
        reverse-append (lstrip (reverse s)) (d ∷ []),
      )
      refl,
)

pub not_dashes :
    (d : ℕ) (s : Text) → is_decimal d ≡ true → text_eq (strip (d ∷ s)) (codes "---") ≡ false
unfolding text_eq is_decimal
not_dashes d s h = let (t, e) = strip-head d s (ground (arith, h)) in rw (e) (ground (arith, h))
