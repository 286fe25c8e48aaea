-- ===== src/NodeId/Suffix.antt =====
-- Taking a suffix from a node id and putting it back:
-- custom_components/hdg_boiler/helpers/string_utils.py
use mathlib.Core.Path.{ap₂}
use mathlib.Core.List.{append-nil}
use hdg_bavaria_homeassistan.Prelude.{
  ℕ, ◌≡◌, refl, Text, true, false, all, [], ◌∷◌, ◌++◌, arith, ap, ◌∙◌, ◌⊎◌, Bool-cases, inl, inr,
}
use hdg_bavaria_homeassistan.Texts.{is_decimal}
use hdg_bavaria_homeassistan.NodeId.{
  is_suffix, take_digits, drop_digits, is_suffix_end, matched, strip_hdg_node_suffix,
}

-- A text of one digit or more.
abbrev IsNumber : Text → Type 0
IsNumber [] = ⊥
IsNumber (c ∷ s) = all is_decimal (c ∷ s) ≡ true

take_digits-append :
    (ds rest : Text)
    → all is_decimal ds ≡ true
    → drop_digits rest ≡ rest
    → take_digits rest ≡ []
    → take_digits (ds ++ rest) ≡ ds
unfolding take_digits
take_digits-append [] rest h d t = t
take_digits-append (c ∷ ds) rest h d t = ground (arith, take_digits-append ds rest)

drop_digits-append :
    (ds rest : Text)
    → all is_decimal ds ≡ true
    → drop_digits rest ≡ rest
    → drop_digits (ds ++ rest) ≡ rest
unfolding drop_digits
drop_digits-append [] rest h d = d
drop_digits-append (c ∷ ds) rest h d = ground (arith, drop_digits-append ds rest)

take_digits-all : (s : Text) → all is_decimal (take_digits s) ≡ true
unfolding take_digits
take_digits-all [] = refl
take_digits-all (c ∷ s) = ground (arith, take_digits-all s)

strip_of :
    (c : ℕ) (s digits rest : Text)
    → take_digits (c ∷ s) ≡ digits
    → drop_digits (c ∷ s) ≡ rest
    → strip_hdg_node_suffix (c ∷ s) ≡ matched digits rest (c ∷ s)
strip_of c s digits rest t d = unfold strip_hdg_node_suffix in ap₂ (λ x y. matched x y (c ∷ s)) t d

not_decimal : (c : ℕ) → is_suffix c ≡ true → is_decimal c ≡ false
unfolding is_suffix is_decimal
not_decimal c h = ground arith

no_digits :
    (c : ℕ) → is_decimal c ≡ false → (take_digits (c ∷ []) ≡ []) × (drop_digits (c ∷ []) ≡ c ∷ [])
unfolding take_digits drop_digits
no_digits c h = ground arith

-- A number stays, and loses a suffix behind it.
strip-number : (ds : Text) → IsNumber ds → strip_hdg_node_suffix ds ≡ ds
strip-number [] h = absurd h
strip-number (d ∷ ds) h =
    strip_of d ds (d ∷ ds) [] (rw append-nil at (take_digits-append (d ∷ ds) [] h no_rest no_run))
      (rw append-nil at (drop_digits-append (d ∷ ds) [] h no_rest))
    ∙ keeps
  where
    no_rest : drop_digits [] ≡ []
    no_rest = unfold drop_digits in refl

    no_run : take_digits [] ≡ []
    no_run = unfold take_digits in refl

    keeps : matched (d ∷ ds) [] (d ∷ ds) ≡ d ∷ ds
    keeps = unfold matched is_suffix_end in refl

-- A number of at least one digit followed by one of the known suffixes has that number as its
-- base.
strip-append :
    (ds : Text) (c : ℕ)
    → IsNumber ds
    → is_suffix c ≡ true
    → strip_hdg_node_suffix (ds ++ c ∷ []) ≡ ds
strip-append [] c h suf = absurd h
strip-append (d ∷ ds) c h suf =
    let (t, r) = no_digits c (not_decimal c suf) in
    strip_of d (ds ++ c ∷ []) (d ∷ ds) (c ∷ []) (take_digits-append (d ∷ ds) (c ∷ []) h r t)
      (drop_digits-append (d ∷ ds) (c ∷ []) h r)
    ∙ drops
  where
    drops : matched (d ∷ ds) (c ∷ []) (d ∷ (ds ++ c ∷ [])) ≡ d ∷ ds
    drops = unfold matched is_suffix_end in rw suf

matched-cases :
    (digits rest s : Text)
    → all is_decimal digits ≡ true
    → (matched digits rest s ≡ s) ⊎ IsNumber (matched digits rest s)
unfolding matched
matched-cases [] rest s h = inl refl
matched-cases (d ∷ digits) rest s h = elim (Bool-cases (is_suffix_end rest)) [
  | inl yes_end ↦ rw yes_end (inr h)
  | inr no_end ↦ rw no_end (inl refl)
]

strip-cases : (s : Text) → (strip_hdg_node_suffix s ≡ s) ⊎ IsNumber (strip_hdg_node_suffix s)
strip-cases [] = inl (unfold strip_hdg_node_suffix in refl)
strip-cases (c ∷ s) =
    rw (strip_of c s (take_digits (c ∷ s)) (drop_digits (c ∷ s)) refl refl)
      (matched-cases (take_digits (c ∷ s)) (drop_digits (c ∷ s)) (c ∷ s) (take_digits-all (c ∷ s)))

-- The base of a base is that base, for every text.
strip_idem : (s : Text) → strip_hdg_node_suffix (strip_hdg_node_suffix s) ≡ strip_hdg_node_suffix s
strip_idem s = elim (strip-cases s) [
  | inl same ↦ ap strip_hdg_node_suffix same
  | inr number ↦ strip-number (strip_hdg_node_suffix s) number
]
