-- ===== src/Redaction/Hidden.antt =====
-- What no longer stands in a redacted text: custom_components/hdg_boiler/helpers/logging_utils.py
use hdg_bavaria_homeassistan.Prelude.{
  ℕ, ◌-◌, ◌≡◌, refl, ap, ◌∙◌, ◌⊎◌, inl, inr, Text, Bool, true, false, not, ◌&&◌, Option, none, some,
  [], ◌∷◌, ◌++◌, length, arith, Bool-cases, both_true,
}
use hdg_bavaria_homeassistan.Redaction.Patterns.{
  is_alnum, placeholder, Pattern, matches, sub_from, sub_pattern,
}
use hdg_bavaria_homeassistan.Redaction.Tokens.{
  starts_false, stands_in-placeholder, EndsAfter, EndsAfter-step, places_left, stands_in,
  TakesNoStar, IsToken,
}

module _ (p : Pattern) where
  -- What matches in the new text, up to a place where nothing has been replaced, matches in the old.
  matches-sub_from :
      (q : Pattern) (before : Bool) (s : Text)
      → TakesNoStar q
      → EndsAfter before q
      → matches q (sub_from p before 0 s) ≡ true
      → matches q s ≡ true
  unfolding matches sub_from
  matches-sub_from [] before [] n e h = refl
  matches-sub_from [] before (c ∷ s) n e h = ground (arith, e, h)
  matches-sub_from (r ∷ q) before [] n e h = h
  matches-sub_from (r ∷ q) before (c ∷ s) n e h =
      elim (Bool-cases (not before && matches p (c ∷ s))) [
        | inl yes_here ↦ absurd (ground (arith, yes_here, h, n.0))
        | inr not_here ↦
            let (a, b) =
              both_true (r c) (matches q (sub_from p (is_alnum c) 0 s))
                (ground (arith, not_here, h)) in
            rw (a) (matches-sub_from q (is_alnum c) s n.1 (EndsAfter-step r q c e a) b)
      ]

  matches-kept :
      (q : Pattern) (c : ℕ) (s : Text)
      → IsToken q
      → matches q (c ∷ sub_from p (is_alnum c) 0 s) ≡ true
      → matches q (c ∷ s) ≡ true
  unfolding matches
  matches-kept [] c s t h = elim t.starts [ ]
  matches-kept (r ∷ q) c s t h =
      let (a, b) = both_true (r c) (matches q (sub_from p (is_alnum c) 0 s)) h in
      rw (a) (matches-sub_from q (is_alnum c) s t.no_star.1 (EndsAfter-step r q c t.ends a) b)

  sub_from-match :
      (before : Bool) (c : ℕ) (s : Text)
      → (not before && matches p (c ∷ s)) ≡ true
      → sub_from p before 0 (c ∷ s) ≡ placeholder ++ sub_from p (is_alnum c) (length p - 1) s
  unfolding sub_from
  sub_from-match before c s h = rw (h, sub_from) refl

  sub_from-keep :
      (before : Bool) (c : ℕ) (s : Text)
      → (not before && matches p (c ∷ s)) ≡ false
      → sub_from p before 0 (c ∷ s) ≡ c ∷ sub_from p (is_alnum c) 0 s
  unfolding sub_from
  sub_from-keep before c s h = rw (h, sub_from) refl

  -- While a match is passed over, the places of the pattern that are left.
  abbrev Passing : Option Pattern → Text → Type 0
  Passing none s = Unit
  Passing (some left) s = matches left s ≡ true

  abbrev left_over : Option Pattern → ℕ
  left_over none = 0
  left_over (some left) = length left

  -- The character before, in the new text: behind a placeholder it is a star.
  abbrev written_before : Bool → Option Pattern → Bool
  written_before before none = before
  written_before before (some left) = false

  module _ (q : Pattern) (tq : IsToken q) (tp : IsToken p) where
    -- A pattern is gone if it was not there before, or if it is the one that is replaced.
    abbrev Gone : Bool → Text → Type 0
    Gone before s = (stands_in q before s ≡ false) ⊎ (p ≡ q)

    Gone-rest : (before : Bool) (c : ℕ) (s : Text) → Gone before (c ∷ s) → Gone (is_alnum c) s
    unfolding stands_in
    Gone-rest before c s (inl h) = inl (ground (arith, h))
    Gone-rest before c s (inr e) = inr e

    there :
        (c : ℕ) (s : Text)
        → Gone false (c ∷ s)
        → matches p (c ∷ s) ≡ false
        → matches q (c ∷ s) ≡ true
        → ⊥
    unfolding stands_in
    there c s (inl h) kept e = ground (arith, h, e)
    there c s (inr pq) kept e = cc

    -- Nothing is replaced here, so the pattern does not stand here.
    not_at_kept :
        (before : Bool) (c : ℕ) (s : Text)
        → Gone before (c ∷ s)
        → (not before && matches p (c ∷ s)) ≡ false
        → (not before && matches q (c ∷ sub_from p (is_alnum c) 0 s)) ≡ false
    unfolding stands_in
    not_at_kept true c s gone kept = refl
    not_at_kept false c s gone kept =
        elim (Bool-cases (matches q (c ∷ sub_from p (is_alnum c) 0 s))) [
          | inl e ↦ absurd (there c s gone kept (matches-kept q c s tq e))
          | inr e ↦ e
        ]

    stands_in-sub_from :
        (mode : Option Pattern) (before : Bool) (s : Text)
        → Passing mode s
        → Gone before s
        → stands_in q (written_before before mode) (sub_from p before (left_over mode) s) ≡ false
    unfolding stands_in sub_from matches
    stands_in-sub_from none before [] g gone = refl
    stands_in-sub_from (some []) before [] g gone = refl
    stands_in-sub_from (some (r ∷ left)) before [] g gone = refl
    stands_in-sub_from (some (r ∷ left)) before (c ∷ s) g gone =
        stands_in-sub_from (some left) (is_alnum c) s (both_true (r c) (matches left s) g).1
          (Gone-rest before c s gone)
    stands_in-sub_from (some []) before (c ∷ s) g gone =
        let other : is_alnum c ≡ false = ground (arith, g) in
        let rest = stands_in-sub_from none (is_alnum c) s tt (Gone-rest before c s gone) in
        let not_here : (not before && matches p (c ∷ s)) ≡ false =
          ground (arith, starts_false p c s tp.starts other) in
        ap (stands_in q false) (sub_from-keep before c s not_here)
        ∙ (ground (arith, rest, starts_false q c (sub_from p (is_alnum c) 0 s) tq.starts other))
    stands_in-sub_from none before (c ∷ s) g gone =
        elim (Bool-cases (not before && matches p (c ∷ s))) [
          | inl here ↦
              let (left, len, passing) =
                places_left p c s tp.starts (both_true (not before) (matches p (c ∷ s)) here).1 in
              ap (stands_in q before) (sub_from-match before c s here)
              ∙ rw (len) (
                  stands_in-placeholder q before (sub_from p (is_alnum c) (length left) s) tq (
                    stands_in-sub_from (some left) (is_alnum c) s passing
                      (Gone-rest before c s gone)))
          | inr not_here ↦
              let rest = stands_in-sub_from none (is_alnum c) s tt (Gone-rest before c s gone) in
              ap (stands_in q before) (sub_from-keep before c s not_here)
              ∙ rw (not_at_kept before c s gone not_here, stands_in) rest
        ]

-- After the substitution the pattern is gone, and what was not there before is not there now.
pub stands_in-sub_pattern :
    (p : Pattern) (text : Text) → IsToken p → stands_in p false (sub_pattern p text) ≡ false
unfolding sub_pattern
stands_in-sub_pattern p text tp = stands_in-sub_from p p tp tp none false text tt (inr refl)

pub stands_in-sub_other :
    (p q : Pattern) (text : Text)
    → IsToken p
    → IsToken q
    → stands_in q false text ≡ false
    → stands_in q false (sub_pattern p text) ≡ false
unfolding sub_pattern
stands_in-sub_other p q text tp tq h = stands_in-sub_from p q tq tp none false text tt (inl h)
