-- ===== src/Redaction/Noted.antt =====
-- The noted secrets only grow: custom_components/hdg_boiler/helpers/logging_utils.py
use mathlib.Core.List.{foldl, append-nil, append_assoc}
use hdg_bavaria_homeassistan.Prelude.{
  ◌≡◌, refl, sym, ap, ◌∙◌, Text, Bool, true, false, not, ◌&&◌, List, [], ◌∷◌, ◌++◌, all, arith,
  both_true, inl, inr, Bool-cases, text_eq, text_eq_refl, codes, Option, none, some, if◌then◌else◌,
}
use hdg_bavaria_homeassistan.Texts.{strip, contains}
use hdg_bavaria_homeassistan.Polling.{is_listed}
use hdg_bavaria_homeassistan.Redaction.Payload.{payload_secrets}
use hdg_bavaria_homeassistan.Redaction.{
  Secrets, note_variant, note_log_secret, note_payload, secret_variants, is_secret, slugged,
  note_host_secret,
}

-- The second list is the first with more behind it.
abbrev pub Extends : Secrets → Secrets → Type 0
Extends s t = (more : Secrets) × (t ≡ s ++ more)

pub Extends-refl : (s : Secrets) → Extends s s
Extends-refl s = ([], sym (append-nil s))

pub Extends-trans : (s t u : Secrets) → Extends s t → Extends t u → Extends s u
Extends-trans s t u (a, p) (b, q) = (a ++ b, q ∙ ap (λ x. x ++ b) p ∙ append_assoc s a b)

if-Extends : (b : Bool) (s t : Secrets) → Extends s t → Extends s (if b then t else s)
if-Extends true s t h = h
if-Extends false s t h = Extends-refl s

note_variant-Extends : (s : Secrets) (v : Text) → Extends s (note_variant s v)
unfolding note_variant
note_variant-Extends s v =
    if-Extends (is_secret v && not (is_listed v s)) s (s ++ v ∷ []) (v ∷ [], refl)

pub foldl-Extends :
    (f : Secrets → Text → Secrets)
    → ((s : Secrets) (v : Text) → Extends s (f s v))
    → (vs : List Text) (s : Secrets) → Extends s (foldl f s vs)
foldl-Extends f h [] s = Extends-refl s
foldl-Extends f h (v ∷ vs) s =
    Extends-trans s (f s v) (foldl f (f s v) vs) (h s v) (foldl-Extends f h vs (f s v))

pub note_log_secret-Extends :
    (quote : Text → Text) (s : Secrets) (v : Text) → Extends s (note_log_secret quote s v)
unfolding note_log_secret
note_log_secret-Extends quote s v =
    if-Extends (is_secret (strip v)) s (foldl note_variant s (secret_variants quote (strip v)))
      (foldl-Extends note_variant note_variant-Extends (secret_variants quote (strip v)) s)

pub note_payload-Extends :
    (quote : Text → Text) (s : Secrets) (text : Text) → Extends s (note_payload quote s text)
unfolding note_payload
note_payload-Extends quote s text =
    foldl-Extends (note_log_secret quote) (note_log_secret-Extends quote) (payload_secrets text) s

all-append : (p : Text → Bool) (s t : List Text) → all p (s ++ t) ≡ (all p s && all p t)
all-append p [] t = refl
all-append p (x ∷ s) t = ground (arith, all-append p s t)

-- What holds of all of a longer list holds of all of a shorter one.
pub all-Extends : (p : Text → Bool) (s t : Secrets) → Extends s t → all p t ≡ true → all p s ≡ true
all-Extends p s t (more, e) h =
    (both_true (all p s) (all p more) (sym (all-append p s more) ∙ ap (all p) (sym e) ∙ h)).0

listed-append : (k : Text) (s t : List Text) → is_listed k s ≡ true → is_listed k (s ++ t) ≡ true
unfolding is_listed
listed-append k [] t h = absurd (cc)
listed-append k (x ∷ s) t h = ground (arith, listed-append k s t, h)

listed-last : (k : Text) (s : List Text) → is_listed k (s ++ k ∷ []) ≡ true
unfolding is_listed
listed-last k [] = ground (arith, text_eq_refl k)
listed-last k (x ∷ s) = ground (arith, listed-last k s)

listed-note_variant :
    (s : Secrets) (v : Text) → is_secret v ≡ true → is_listed v (note_variant s v) ≡ true
unfolding note_variant
listed-note_variant s v h = elim (Bool-cases (is_listed v s)) [
  | inl e ↦ rw (h, e) e
  | inr e ↦ rw (h, e) (listed-last v s)
]

pub is_listed-Extends :
    (k : Text) (s t : Secrets) → Extends s t → is_listed k s ≡ true → is_listed k t ≡ true
unfolding is_listed
is_listed-Extends k s t (more, e) h = ap (is_listed k) e ∙ listed-append k s more h

then_branch : (b : Bool) (s t : Secrets) → b ≡ true → (if b then s else t) ≡ s
then_branch b s t h = rw (h) refl

-- A value that is worth hiding is among the secrets afterwards.
pub listed-note_log_secret :
    (quote : Text → Text) (s : Secrets) (v : Text)
    → is_secret (strip v) ≡ true
    → is_listed (strip v) (note_log_secret quote s v) ≡ true
unfolding note_log_secret secret_variants
listed-note_log_secret quote s v h =
    let first = note_variant s (strip v) in
    let after = foldl note_variant s (secret_variants quote (strip v)) in
    ap (is_listed (strip v)) (then_branch (is_secret (strip v)) after s h)
    ∙ (is_listed-Extends (strip v) first after
        (foldl-Extends note_variant note_variant-Extends (quote (strip v) ∷ slugged (strip v) ∷ [])
          first)
        (listed-note_variant s (strip v) h))

found-Extends :
    (quote : Text → Text) (s : Secrets) (found : Option Text)
    → Extends s (elim found [ none ↦ s | some host ↦ note_log_secret quote s host ])
found-Extends quote s none = Extends-refl s
found-Extends quote s (some host) = note_log_secret-Extends quote s host

pub note_host_secret-Extends :
    (quote : Text → Text) (hostname : Text → Option Text) (s : Secrets) (v : Text)
    → Extends (note_log_secret quote s v) (note_host_secret quote hostname s v)
unfolding note_host_secret
note_host_secret-Extends quote hostname s v =
    let noted = note_log_secret quote s v in
    elim (Bool-cases (text_eq (strip v) [])) [
      | inl e ↦ rw (e) (Extends-refl noted)
      | inr e ↦ rw (e) (
          found-Extends quote noted (
            hostname (if contains (strip v) (codes "://") then strip v else codes "//" ++ strip v)))
    ]
