-- ===== src/Redaction/Tokens.antt =====
-- Patterns that cannot stand across the edge of a placeholder:
-- custom_components/hdg_boiler/helpers/logging_utils.py
use hdg_bavaria_homeassistan.Prelude.{
  ℕ, ◌-◌, ◌≡◌, refl, inl, inr, Text, codes, Bool, true, false, not, ◌&&◌, ◌||◌, [], ◌∷◌, ◌++◌,
  length, arith, Bool-cases, both_true,
}
use hdg_bavaria_homeassistan.Redaction.Patterns.{is_alnum, placeholder, Pattern, matches}

-- Does the pattern stand somewhere in the text? The flag says whether the character before the text
-- is a letter or a digit.
unfoldable pub stands_in : Pattern → Bool → Text → Bool
stands_in q before [] = false
stands_in q before (c ∷ s) = (not before && matches q (c ∷ s)) || stands_in q (is_alnum c) s

-- The first place of a pattern, and the last one, take letters and digits only.
abbrev pub StartsWithAlnum : Pattern → Type 0
StartsWithAlnum [] = ⊥
StartsWithAlnum (r ∷ q) = (c : ℕ) → r c ≡ true → is_alnum c ≡ true

abbrev pub EndsWithAlnum : Pattern → Type 0
EndsWithAlnum [] = Unit
EndsWithAlnum (r ∷ []) = (c : ℕ) → r c ≡ true → is_alnum c ≡ true
EndsWithAlnum (r ∷ r' ∷ q) = EndsWithAlnum (r' ∷ q)

abbrev pub TakesNoStar : Pattern → Type 0
TakesNoStar [] = Unit
TakesNoStar (r ∷ q) = (r b'*' ≡ false) × TakesNoStar q

-- A pattern that cannot stand across the placeholder's edge, or be its word.
pub record IsToken (q : Pattern) : Type 0 where
  pub starts : StartsWithAlnum q
  pub ends : EndsWithAlnum q
  pub no_star : TakesNoStar q
  pub not_word : matches q (codes "REDACTED") ≡ false

pub starts_false :
    (q : Pattern) (c : ℕ) (s : Text)
    → StartsWithAlnum q
    → is_alnum c ≡ false
    → matches q (c ∷ s) ≡ false
unfolding matches
starts_false [] c s st h = elim st [ ]
starts_false (r ∷ q) c s st h = elim (Bool-cases (r c)) [
  | inl e ↦ absurd (ground (arith, st c e, h))
  | inr e ↦ rw (e) refl
]

star_false : (q : Pattern) (s : Text) → StartsWithAlnum q → matches q (b'*' ∷ s) ≡ false
unfolding is_alnum
star_false q s st = starts_false q b'*' s st refl

matches-before_star :
    (q : Pattern) (w y : Text)
    → TakesNoStar q
    → matches q (w ++ b'*' ∷ y) ≡ true
    → matches q w ≡ true
unfolding matches
matches-before_star [] [] y n h = refl
matches-before_star [] (c ∷ w) y n h = h
matches-before_star (r ∷ q) [] y n h = absurd (ground (arith, h, n.0))
matches-before_star (r ∷ q) (c ∷ w) y n h =
    let (a, b) = both_true (r c) (matches q (w ++ b'*' ∷ y)) h in
    rw (a) (matches-before_star q w y n.1 b)

-- The placeholder hides nothing that is a token.
pub stands_in-placeholder :
    (q : Pattern) (before : Bool) (y : Text)
    → IsToken q
    → stands_in q false y ≡ false
    → stands_in q before (placeholder ++ y) ≡ false
unfolding stands_in is_alnum
stands_in-placeholder q before y t h =
    let word : matches q (codes "REDACTED" ++ b'*' ∷ b'*' ∷ y) ≡ false =
      elim (Bool-cases (matches q (codes "REDACTED" ++ b'*' ∷ b'*' ∷ y))) [
        | inl e ↦ absurd (
            ground
              (arith, matches-before_star q (codes "REDACTED") (b'*' ∷ y) t.no_star e, t.not_word))
        | inr e ↦ e
      ] in
    ground (
      arith,
      word,
      star_false q (b'*' ∷ codes "REDACTED" ++ b'*' ∷ b'*' ∷ y) t.starts,
      star_false q (codes "REDACTED" ++ b'*' ∷ b'*' ∷ y) t.starts,
      star_false q (b'*' ∷ y) t.starts,
      star_false q y t.starts,
      h,
    )

-- The last character of a pattern that has been passed over is a letter or a digit.
abbrev pub EndsAfter : Bool → Pattern → Type 0
EndsAfter before [] = before ≡ true
EndsAfter before (r ∷ q) = EndsWithAlnum (r ∷ q)

pub EndsAfter-step :
    (r : ℕ → Bool) (q : Pattern) (c : ℕ)
    → EndsWithAlnum (r ∷ q)
    → r c ≡ true
    → EndsAfter (is_alnum c) q
EndsAfter-step r [] c e h = e c h
EndsAfter-step r (r' ∷ q) c e h = e

-- The places of a pattern behind its first.
pub places_left :
    (p : Pattern) (c : ℕ) (s : Text)
    → StartsWithAlnum p
    → matches p (c ∷ s) ≡ true
    → (left : Pattern) × (length p - 1 ≡ length left) × (matches left s ≡ true)
unfolding matches
places_left [] c s st h = elim st [ ]
places_left (r ∷ left) c s st h = (left, omega arith, (both_true (r c) (matches left s) h).1)
