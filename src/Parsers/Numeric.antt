-- ===== src/Parsers/Numeric.antt =====
-- Separators of thousands and of decimals: `_normalize_numeric_string` of
-- custom_components/hdg_boiler/helpers/parsers.py
use hdg_bavaria_homeassistan.Prelude.{
  ℕ, suc, ◌≤◌, ◌≡◌, refl, Text, Bool, true, false, ◌||◌, all, [], ◌∷◌, ◌++◌, ◌==◌, arith, length,
  ltb, ap, ◌∙◌, if◌then◌else◌,
}
use hdg_bavaria_homeassistan.Texts.{is_decimal}
use hdg_bavaria_homeassistan.Parsers.Extract.{
  drop_spaces, has, remove, comma_to_dot, rfind, normalize_numeric_string, normalize_spaceless,
}

-- A digit, or the separator `g` between groups of digits.
abbrev is_grouped : ℕ → ℕ → Bool
is_grouped g c = is_decimal c || c == g

drop_spaces-grouped :
    (g : ℕ) (s rest : Text)
    → (g == b' ') ≡ false
    → (g == 160) ≡ false
    → all (is_grouped g) s ≡ true
    → drop_spaces (s ++ rest) ≡ s ++ drop_spaces rest
unfolding drop_spaces is_decimal
drop_spaces-grouped g [] rest h k a = refl
drop_spaces-grouped g (c ∷ s) rest h k a = ground (arith, drop_spaces-grouped g s rest h k)

pub has-append : (d : ℕ) (s rest : Text) → has d (s ++ rest) ≡ (has d s || has d rest)
unfolding has
has-append d [] rest = refl
has-append d (c ∷ s) rest = ground (arith, has-append d s rest)

pub has-decimal :
    (d : ℕ) (s : Text) → is_decimal d ≡ false → all is_decimal s ≡ true → has d s ≡ false
unfolding has is_decimal
has-decimal d [] n a = refl
has-decimal d (c ∷ s) n a = ground (arith, has-decimal d s n)

has-grouped :
    (g d : ℕ) (s : Text)
    → is_decimal d ≡ false
    → (g == d) ≡ false
    → all (is_grouped g) s ≡ true
    → has d s ≡ false
unfolding has is_decimal
has-grouped g d [] n e a = refl
has-grouped g d (c ∷ s) n e a = ground (arith, has-grouped g d s n e)

remove-append : (d : ℕ) (s rest : Text) → remove d (s ++ rest) ≡ remove d s ++ remove d rest
unfolding remove
remove-append d [] rest = refl
remove-append d (c ∷ s) rest = ground (arith, remove-append d s rest)

remove-none : (d : ℕ) (s : Text) → has d s ≡ false → remove d s ≡ s
unfolding has remove
remove-none d [] h = refl
remove-none d (c ∷ s) h = ground (arith, remove-none d s)

has-remove : (g d : ℕ) (s : Text) → has d s ≡ false → has d (remove g s) ≡ false
unfolding has remove
has-remove g d [] h = refl
has-remove g d (c ∷ s) h = ground (arith, has-remove g d s)

pub comma_to_dot-append :
    (s rest : Text) → has b',' s ≡ false → comma_to_dot (s ++ rest) ≡ s ++ comma_to_dot rest
unfolding has comma_to_dot
comma_to_dot-append [] rest h = refl
comma_to_dot-append (c ∷ s) rest h = ground (arith, comma_to_dot-append s rest)

pub comma_to_dot-none : (s : Text) → has b',' s ≡ false → comma_to_dot s ≡ s
unfolding has comma_to_dot
comma_to_dot-none [] h = refl
comma_to_dot-none (c ∷ s) h = ground (arith, comma_to_dot-none s)

rfind-none : (d : ℕ) (s : Text) → has d s ≡ false → rfind d s ≡ 0
unfolding has rfind
rfind-none d [] h = refl
rfind-none d (c ∷ s) h = ground (arith, rfind-none d s)

rfind-le : (d : ℕ) (s rest : Text) → has d rest ≡ false → rfind d (s ++ rest) ≤ length s
unfolding rfind
rfind-le d [] rest h = ground (arith, rfind-none d rest h)
rfind-le d (c ∷ s) rest h = ground (arith, rfind-le d s rest h)

rfind-at : (d : ℕ) (s rest : Text) → has d rest ≡ false → rfind d (s ++ d ∷ rest) ≡ suc (length s)
unfolding rfind
rfind-at d [] rest h = ground (arith, rfind-none d rest h)
rfind-at d (c ∷ s) rest h = ground (arith, rfind-at d s rest h)

drop_spaces-decimal : (s : Text) → all is_decimal s ≡ true → drop_spaces s ≡ s
unfolding drop_spaces is_decimal
drop_spaces-decimal [] a = refl
drop_spaces-decimal (c ∷ s) a = ground (arith, drop_spaces-decimal s)

-- Text with both
both_separators :
    (s : Text)
    → drop_spaces s ≡ s
    → has b'.' s ≡ true
    → has b',' s ≡ true
    → normalize_numeric_string s
      ≡ (if ltb (rfind b'.' s) (rfind b',' s) then comma_to_dot (remove b'.' s) else remove b',' s)
unfolding normalize_numeric_string normalize_spaceless
both_separators s d h k = rw (d, h, k) refl

-- What is known of a number with the group separator `g` and the decimal separator `p`.
module _ (g p : ℕ) (whole frac : Text) (apart : (g == p) ≡ false)
    (no_space : (g == b' ' || g == 160) ≡ false)
    (plain_p : (is_decimal p || p == b' ' || p == 160) ≡ false) (plain_g : is_decimal g ≡ false)
    (a : all (is_grouped g) whole ≡ true) (f : all is_decimal frac ≡ true) where
  spaceless : drop_spaces (whole ++ p ∷ frac) ≡ whole ++ p ∷ frac
  unfolding drop_spaces
  spaceless =
      drop_spaces-grouped g whole (p ∷ frac) (ground (arith, no_space)) (ground (arith, no_space)) a
      ∙ ground (arith, plain_p, drop_spaces-decimal frac f)

  no_g_behind : has g (p ∷ frac) ≡ false
  unfolding has
  no_g_behind = ground (arith, apart, has-decimal g frac plain_g f)

  places :
      (rfind g (whole ++ p ∷ frac) ≤ length whole)
      × (rfind p (whole ++ p ∷ frac) ≡ suc (length whole))
      × (has p (whole ++ p ∷ frac) ≡ true)
      × (remove g (whole ++ p ∷ frac) ≡ remove g whole ++ p ∷ frac)
  unfolding has
  places = (
    rfind-le g whole (p ∷ frac) no_g_behind,
    rfind-at p whole frac (has-decimal p frac (ground (arith, plain_p)) f),
    ground (arith, has-append p whole (p ∷ frac)),
    remove-append g whole (p ∷ frac)
        ∙ ap (λ x. remove g whole ++ x) (remove-none g (p ∷ frac) no_g_behind),
  )

  has_group : has g whole ≡ true → has g (whole ++ p ∷ frac) ≡ true
  has_group h = ground (arith, has-append g whole (p ∷ frac), h)

-- Where one of the point and the comma stands between groups and the other before the fraction,
-- the first is left out and the second is written as a point.
normalize_grouped :
    (whole frac : Text)
    → all is_decimal frac ≡ true
    → (all (is_grouped b'.') whole ≡ true
        → has b'.' whole ≡ true
        → normalize_numeric_string (whole ++ b',' ∷ frac) ≡ remove b'.' whole ++ b'.' ∷ frac)
      × (all (is_grouped b',') whole ≡ true
          → has b',' whole ≡ true
          → normalize_numeric_string (whole ++ b'.' ∷ frac) ≡ remove b',' whole ++ b'.' ∷ frac)
unfolding is_decimal comma_to_dot
normalize_grouped whole frac f = (
  λ a h.
      let (left, right, comma, bare) = places b'.' b',' whole frac refl refl refl refl a f in
      let no_comma : has b',' (remove b'.' whole) ≡ false =
        has-remove b'.' b',' whole (has-grouped b'.' b',' whole refl refl a) in
      both_separators (whole ++ b',' ∷ frac)
        (spaceless b'.' b',' whole frac refl refl refl refl a f)
        (has_group b'.' b',' whole frac refl refl refl refl a f h) comma
      ∙ ground (
        arith,
        left,
        right,
        bare,
        comma_to_dot-append (remove b'.' whole) (b',' ∷ frac) no_comma,
        comma_to_dot-none frac (has-decimal b',' frac refl f),
      ),
  λ a h.
      let (left, right, point, bare) = places b',' b'.' whole frac refl refl refl refl a f in
      both_separators (whole ++ b'.' ∷ frac)
        (spaceless b',' b'.' whole frac refl refl refl refl a f) point
        (has_group b',' b'.' whole frac refl refl refl refl a f h)
      ∙ ground (arith, left, right, bare),
)
