-- ===== src/Redaction/Secrets.antt =====
-- No noted secret is left in a redacted text: custom_components/hdg_boiler/helpers/logging_utils.py
use hdg_bavaria_homeassistan.Prelude.{
  ℕ, ◌≡◌, refl, sym, ap, ◌∙◌, Text, codes, Bool, true, false, not, ◌&&◌, List, [], ◌∷◌, all,
  all_cons, arith, ◌==◌, text_eq, text_eq_iff, Bool-cases, both_true, inl, inr,
}
use hdg_bavaria_homeassistan.Texts.{lower, lower_text}
use hdg_bavaria_homeassistan.Redaction.Patterns.{
  is_alnum, is_hex, is_separator, compile_secret, mac_pattern, matches, sub_pattern,
}
use hdg_bavaria_homeassistan.Redaction.Tokens.{
  StartsWithAlnum, EndsWithAlnum, TakesNoStar, IsToken, stands_in,
}
use hdg_bavaria_homeassistan.Redaction.Hidden.{stands_in-sub_pattern, stands_in-sub_other}
use hdg_bavaria_homeassistan.Redaction.{
  Secrets, insert_by_length, longest_first, replace_each, replace_noted_secrets, note_payload,
  redact,
}

ends_with_alnum : Text → Bool
unfolding is_alnum
ends_with_alnum [] = false
ends_with_alnum (c ∷ []) = is_alnum c
ends_with_alnum (c ∷ d ∷ s) = ends_with_alnum (d ∷ s)

starts_with_alnum : Text → Bool
unfolding is_alnum
starts_with_alnum [] = false
starts_with_alnum (c ∷ s) = is_alnum c

-- A text that starts and ends with a letter or a digit, has no star, and is not the placeholder's
-- word: an address, a host, a serial number.
unfoldable pub is_token : Text → Bool
unfolding starts_with_alnum ends_with_alnum lower_text text_eq
is_token s =
    starts_with_alnum s
    && ends_with_alnum s
    && all (λ c. not (c == b'*')) s
    && not (text_eq (lower_text s) (codes "redacted"))

four_true :
    (a b c d : Bool) → (a && b && c && d) ≡ true → (a ≡ true) × (b ≡ true) × (c ≡ true) × (d ≡ true)
four_true a b c d h = ground (arith, h)

lower-is_alnum : (d c : ℕ) → is_alnum d ≡ true → (lower d == lower c) ≡ true → is_alnum c ≡ true
unfolding lower is_alnum
lower-is_alnum d c h e = ground (arith, h, e)

lower-star : (d : ℕ) → not (d == b'*') ≡ true → (lower d == lower b'*') ≡ false
unfolding lower
lower-star d h = ground (arith, h)

starts-compile_secret : (s : Text) → starts_with_alnum s ≡ true → StartsWithAlnum (compile_secret s)
unfolding compile_secret starts_with_alnum
starts-compile_secret [] h = absurd (cc)
starts-compile_secret (d ∷ s) h = λ c e. lower-is_alnum d c h e

ends-compile_secret : (s : Text) → ends_with_alnum s ≡ true → EndsWithAlnum (compile_secret s)
unfolding compile_secret ends_with_alnum
ends-compile_secret [] h = tt
ends-compile_secret (d ∷ []) h = λ c e. lower-is_alnum d c h e
ends-compile_secret (d ∷ d' ∷ s) h = ends-compile_secret (d' ∷ s) h

no_star-compile_secret :
    (s : Text) → all (λ c. not (c == b'*')) s ≡ true → TakesNoStar (compile_secret s)
unfolding compile_secret
no_star-compile_secret [] h = tt
no_star-compile_secret (d ∷ s) h =
    let (a, b) = all_cons (λ c. not (c == b'*')) d s h in
    (lower-star d a, no_star-compile_secret s b)

matches-compile_secret :
    (s w : Text)
    → all is_alnum w ≡ true
    → matches (compile_secret s) w ≡ true
    → lower_text s ≡ lower_text w
unfolding compile_secret matches lower_text
matches-compile_secret [] [] h m = refl
matches-compile_secret [] (c ∷ w) h m = absurd (ground (arith, h, m))
matches-compile_secret (d ∷ s) [] h m = absurd (cc)
matches-compile_secret (d ∷ s) (c ∷ w) h m =
    let (a, b) = both_true (lower d == lower c) (matches (compile_secret s) w) m in
    ground (arith, a, matches-compile_secret s w (all_cons is_alnum c w h).1 b)

not_the_word :
    (s : Text)
    → not (text_eq (lower_text s) (codes "redacted")) ≡ true
    → matches (compile_secret s) (codes "REDACTED") ≡ false
unfolding lower_text lower is_alnum
not_the_word s h = elim (Bool-cases (matches (compile_secret s) (codes "REDACTED"))) [
  | inl e ↦ absurd (
      ground (
        arith,
        h,
        (text_eq_iff (lower_text s) (codes "redacted")).1
            (matches-compile_secret s (codes "REDACTED") refl e),
      ))
  | inr e ↦ e
]

compile_secret-IsToken : (s : Text) → is_token s ≡ true → IsToken (compile_secret s)
unfolding is_token
compile_secret-IsToken s h =
    let (a, b, c, d) =
      four_true (starts_with_alnum s) (ends_with_alnum s) (all (λ c. not (c == b'*')) s)
        (not (text_eq (lower_text s) (codes "redacted"))) h in
    record {
      starts = starts-compile_secret s a;
      ends = ends-compile_secret s b;
      no_star = no_star-compile_secret s c;
      not_word = not_the_word s d;
    }

hex-is_alnum : (c : ℕ) → is_hex c ≡ true → is_alnum c ≡ true
unfolding is_hex is_alnum
hex-is_alnum c h = ground (arith, h)

mac_pattern-IsToken : IsToken mac_pattern
unfolding mac_pattern is_hex is_separator matches
mac_pattern-IsToken = record {
  starts = hex-is_alnum;
  ends = hex-is_alnum;
  no_star = ground arith;
  not_word = refl;
}

all-insert_by_length :
    (p : Text → Bool) (s : Text) (ts : List Text)
    → all p (insert_by_length s ts) ≡ (p s && all p ts)
unfolding insert_by_length
all-insert_by_length p s [] = refl
all-insert_by_length p s (t ∷ ts) = ground (arith, all-insert_by_length p s ts)

all-longest_first : (p : Text → Bool) (ss : List Text) → all p (longest_first ss) ≡ all p ss
unfolding longest_first
all-longest_first p [] = refl
all-longest_first p (s ∷ ss) =
    all-insert_by_length p s (longest_first ss) ∙ ap (λ b. p s && b) (all-longest_first p ss)

-- A pattern that is gone stays away while other secrets are replaced.
stands_in-replace_each :
    (q : List (ℕ → Bool)) (secrets : List Text) (text : Text)
    → IsToken q
    → all is_token secrets ≡ true
    → stands_in q false text ≡ false
    → stands_in q false (replace_each secrets text) ≡ false
unfolding replace_each
stands_in-replace_each q [] text tq h gone = gone
stands_in-replace_each q (secret ∷ secrets) text tq h gone =
    let (here, later) = all_cons is_token secret secrets h in
    stands_in-replace_each q secrets (sub_pattern (compile_secret secret) text) tq later (
      stands_in-sub_other (compile_secret secret) q text (compile_secret-IsToken secret here) tq
        gone)

-- Is no secret of the list left in the text?
abbrev pub all_gone : Text → List Text → Bool
all_gone text secrets = all (λ s. not (stands_in (compile_secret s) false text)) secrets

-- What a later replacement keeps away, for each secret of a list.
all_gone-step :
    (f : Text → Text) (secrets : List Text)
    → ((s : Text)
        → is_token s ≡ true
        → (text : Text) → stands_in (compile_secret s) false text ≡ false
        → stands_in (compile_secret s) false (f text) ≡ false)
    → (text : Text) → all is_token secrets ≡ true
    → all_gone text secrets ≡ true
    → all_gone (f text) secrets ≡ true
all_gone-step f [] keeps text h gone = refl
all_gone-step f (s ∷ secrets) keeps text h gone =
    let (here, later) = all_cons is_token s secrets h in
    let (a, b) =
      both_true (not (stands_in (compile_secret s) false text)) (all_gone text secrets) gone in
    ground
      (arith, keeps s here text (ground (arith, a)), all_gone-step f secrets keeps text later b)

gone-replace_each :
    (secrets : List Text) (text : Text)
    → all is_token secrets ≡ true
    → all_gone (replace_each secrets text) secrets ≡ true
unfolding replace_each
gone-replace_each [] text h = refl
gone-replace_each (s ∷ secrets) text h =
    let (here, later) = all_cons is_token s secrets h in
    let replaced = sub_pattern (compile_secret s) text in
    let token = compile_secret-IsToken s here in
    ground (
      arith,
      stands_in-replace_each (compile_secret s) secrets replaced token later
          (stands_in-sub_pattern (compile_secret s) text token),
      gone-replace_each secrets replaced later,
    )

-- If every secret that is noted once a text has been searched starts and ends with a letter or a
-- digit, has no star, and is not the word of the placeholder, then no noted secret, with no
-- letter or digit directly before it or behind it, is left in the redacted text, whatever its
-- case, and no MAC address either.
pub redact_hides :
    (quote : Text → Text) (secrets : Secrets) (text : Text)
    → all is_token (note_payload quote secrets text) ≡ true
    → (all_gone (redact quote secrets text).1 (redact quote secrets text).0 ≡ true)
      × (stands_in mac_pattern false (redact quote secrets text).1 ≡ false)
unfolding redact replace_noted_secrets
redact_hides quote secrets text tokens =
    let noted = note_payload quote secrets text in
    let replaced = replace_each (longest_first noted) text in
    let sorted : all is_token (longest_first noted) ≡ true =
      all-longest_first is_token noted ∙ tokens in
    let gone : all_gone replaced noted ≡ true =
      sym (all-longest_first (λ s. not (stands_in (compile_secret s) false replaced)) noted)
      ∙ gone-replace_each (longest_first noted) text sorted in
    (
      all_gone-step (sub_pattern mac_pattern) noted
          (λ s here t away.
            stands_in-sub_other mac_pattern (compile_secret s) t mac_pattern-IsToken
              (compile_secret-IsToken s here) away)
          replaced tokens gone,
      stands_in-sub_pattern mac_pattern replaced mac_pattern-IsToken,
    )
