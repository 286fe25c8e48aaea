-- ===== src/Protocol/Payload.antt =====
-- Reading the node ids out of a request of the modern protocol:
-- custom_components/hdg_boiler/api/protocols.py
use mathlib.Core.List.{reverse, reverse-reverse, reverse-cons, append_assoc}
use hdg_bavaria_homeassistan.Prelude.{
  ℕ, ◌≡◌, refl, sym, ap, ◌∙◌, Text, codes, Bool, true, List, [], ◌∷◌, ◌++◌, map, all, not, ◌==◌,
  arith, if◌then◌else◌,
}
use hdg_bavaria_homeassistan.Texts.{ends_with, starts_with, join}
use hdg_bavaria_homeassistan.Protocol.{drop_last, strip_trailing_t, read_payload_v2}

-- The boiler's side, as the format is documented: the ids stand behind `nodes=`, with dashes
-- between them.
abbrev cons_first : ℕ → List Text → List Text
cons_first c [] = (c ∷ []) ∷ []
cons_first c (p ∷ ps) = (c ∷ p) ∷ ps

split_dash : Text → List Text
split_dash [] = [] ∷ []
split_dash (c ∷ s) = let rest = split_dash s in if c == b'-' then [] ∷ rest else cons_first c rest

after_equals : Text → Text
after_equals [] = []
after_equals (c ∷ s) = let rest = after_equals s in if c == b'=' then s else rest

requested_ids : Text → List Text
unfolding split_dash after_equals
requested_ids payload = split_dash (after_equals payload)

abbrev no_dash : Text → Bool
no_dash = all (λ c. not (c == b'-'))

-- A text that ends in T and has no dash.
abbrev IsNodeId : Text → Type 0
IsNodeId s = (ends_with s (codes "T") ≡ true) × (no_dash s ≡ true)

abbrev AllNodeIds : List Text → Type 0
AllNodeIds [] = Unit
AllNodeIds (s ∷ ss) = IsNodeId s × AllNodeIds ss

drop_last-append : (s : Text) (c : ℕ) → drop_last (s ++ c ∷ []) ≡ s
unfolding drop_last
drop_last-append [] c = refl
drop_last-append (d ∷ []) c = refl
drop_last-append (d ∷ e ∷ s) c = ap (λ t. d ∷ t) (drop_last-append (e ∷ s) c)

-- Seen from behind: what begins with a T is a T and something.
restored :
    (r : Text) → starts_with r (codes "T") ≡ true → drop_last (reverse r) ++ codes "T" ≡ reverse r
unfolding starts_with
restored [] h = cc
restored (c ∷ r) h =
    let is_t : c ≡ b'T' = ground arith in
    rw (reverse-cons c r, drop_last-append (reverse r) c, is_t)

strip_trailing_t-append :
    (s : Text) → ends_with s (codes "T") ≡ true → strip_trailing_t s ++ codes "T" ≡ s
unfolding strip_trailing_t
strip_trailing_t-append s h =
    rw h (rw (reverse-reverse s) at (restored (reverse s) (unfold ends_with in h)))

split_dash-plain : (p : Text) → no_dash p ≡ true → split_dash p ≡ p ∷ []
unfolding split_dash
split_dash-plain [] h = refl
split_dash-plain (c ∷ p) h = ground (arith, split_dash-plain p)

split_dash-append :
    (p rest : Text) → no_dash p ≡ true → split_dash (p ++ b'-' ∷ rest) ≡ p ∷ split_dash rest
unfolding split_dash
split_dash-append [] rest h = refl
split_dash-append (c ∷ p) rest h = ground (arith, split_dash-append p rest)

regrouped :
    (s rest : Text)
    → ends_with s (codes "T") ≡ true
    → (strip_trailing_t s ++ codes "T-" ++ rest) ++ codes "T" ≡ s ++ b'-' ∷ (rest ++ codes "T")
regrouped s rest h = simp append_assoc (
    sym (append_assoc (strip_trailing_t s) (codes "T") (b'-' ∷ (rest ++ codes "T")))
    ∙ ap (λ t. t ++ b'-' ∷ (rest ++ codes "T")) (strip_trailing_t-append s h))

split-join :
    (s : Text) (ss : List Text)
    → AllNodeIds (s ∷ ss)
    → split_dash (join (codes "T-") (map strip_trailing_t (s ∷ ss)) ++ codes "T") ≡ s ∷ ss
unfolding join
split-join s [] h = rw (strip_trailing_t-append s h.0.0) (split_dash-plain s h.0.1)
split-join s (t ∷ ss) h =
    ap split_dash (regrouped s (join (codes "T-") (map strip_trailing_t (t ∷ ss))) h.0.0)
    ∙ split_dash-append s (join (codes "T-") (map strip_trailing_t (t ∷ ss)) ++ codes "T") h.0.1
    ∙ ap (λ l. s ∷ l) (split-join t ss h.1)

-- For a list of node IDs that is not empty, each of which ends in T and has no dash, splitting
-- the ids out of the payload of the modern read request gives the list back.
requested_ids-read_payload_v2 :
    (s : Text) (ss : List Text)
    → AllNodeIds (s ∷ ss)
    → requested_ids (read_payload_v2 (s ∷ ss)) ≡ s ∷ ss
unfolding requested_ids read_payload_v2
requested_ids-read_payload_v2 s ss h = split-join s ss h
