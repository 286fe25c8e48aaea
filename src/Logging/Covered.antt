-- ===== src/Logging/Covered.antt =====
-- What the filters of custom_components/hdg_boiler/helpers/logging_utils.py leave in a record.
use hdg_bavaria_homeassistan.Prelude.{
  ℕ, ◌⊎◌, ◌≡◌, refl, ap, ◌∙◌, Text, true, false, not, Option, none, some, List, [], ◌∷◌, all,
  Bool-cases, inl, inr,
}
use hdg_bavaria_homeassistan.Redaction.{
  Secrets, redact, note_payload, replace_each, replace_noted_secrets, longest_first,
}
use hdg_bavaria_homeassistan.Redaction.Secrets.{is_token, all_gone, redact_hides}
use hdg_bavaria_homeassistan.Redaction.Patterns.{
  compile_secret, mac_pattern, sub_pattern, sub_from, matches, Pattern,
}
use hdg_bavaria_homeassistan.Redaction.Tokens.{stands_in}
use hdg_bavaria_homeassistan.Redaction.Noted.{
  Extends, Extends-refl, Extends-trans, note_payload-Extends, all-Extends,
}
use hdg_bavaria_homeassistan.Logging.Records.{
  LogRecord, redact_message, redact_optional, redact_traceback, redact_record, is_missing,
}

-- No secret of the list is left in the text, if there is a text.
abbrev IsClean : Secrets → Option Text → Type 0
IsClean secrets none = Unit
IsClean secrets (some text) = all_gone text secrets ≡ true

-- The message is a str, or has arguments.
abbrev pub IsRendered : LogRecord → Option (Text → Text) → Type 0
IsRendered r none = r.is_str ≡ true
IsRendered r (some render) = Unit

nonempty-sub_pattern :
    (p : Pattern) (c : ℕ) (s : Text) → is_missing (some (sub_pattern p (c ∷ s))) ≡ false
unfolding sub_pattern sub_from is_missing
nonempty-sub_pattern p c s = elim (Bool-cases (matches p (c ∷ s))) [
  | inl e ↦ rw (e, sub_from) refl
  | inr e ↦ rw (e, sub_from) refl
]

nonempty-sub :
    (p : Pattern) (t : Text)
    → is_missing (some t) ≡ false
    → is_missing (some (sub_pattern p t)) ≡ false
unfolding is_missing
nonempty-sub p [] h = absurd (cc)
nonempty-sub p (c ∷ s) h = nonempty-sub_pattern p c s

nonempty-replace_each :
    (secrets : List Text) (t : Text)
    → is_missing (some t) ≡ false
    → is_missing (some (replace_each secrets t)) ≡ false
unfolding replace_each
nonempty-replace_each [] t h = h
nonempty-replace_each (s ∷ secrets) t h =
    nonempty-replace_each secrets (sub_pattern (compile_secret s) t)
      (nonempty-sub (compile_secret s) t h)

module _ (quote : Text → Text) (old : Secrets) where
  nonempty-redact :
      (s : Secrets) (t : Text)
      → is_missing (some t) ≡ false
      → is_missing (some (redact quote s t).1) ≡ false
  unfolding redact replace_noted_secrets
  nonempty-redact s t h =
      nonempty-sub mac_pattern (replace_each (longest_first (note_payload quote s t)) t)
        (nonempty-replace_each (longest_first (note_payload quote s t)) t h)

  nonempty-redact_optional :
      (s : Secrets) (o : Option Text)
      → is_missing o ≡ false
      → is_missing (redact_optional quote s o).1 ≡ false
  unfolding redact_optional is_missing
  nonempty-redact_optional s none h = absurd (cc)
  nonempty-redact_optional s (some t) h = nonempty-redact s t h

  pub redact-clean :
      (s : Secrets) (text : Text)
      → Extends old s
      → all is_token (redact quote s text).0 ≡ true
      → Extends old (redact quote s text).0 × (all_gone (redact quote s text).1 old ≡ true)
  unfolding redact
  redact-clean s text e tokens =
      let longer =
        Extends-trans old s (note_payload quote s text) e (note_payload-Extends quote s text) in
      (
        longer,
        all-Extends (λ x. not (stands_in (compile_secret x) false (redact quote s text).1)) old
            (note_payload quote s text) longer (redact_hides quote s text tokens).0,
      )

  redact_optional-Extends :
      (s : Secrets) (o : Option Text) → Extends s (redact_optional quote s o).0
  unfolding redact_optional redact
  redact_optional-Extends s none = Extends-refl s
  redact_optional-Extends s (some text) = note_payload-Extends quote s text

  optional-IsClean :
      (s : Secrets) (o : Option Text)
      → Extends old s
      → all is_token (redact_optional quote s o).0 ≡ true
      → IsClean old (redact_optional quote s o).1
  unfolding redact_optional
  optional-IsClean s none e tokens = tt
  optional-IsClean s (some text) e tokens = (redact-clean s text e tokens).1

  redact_message-Extends :
      (s : Secrets) (r : LogRecord) (m : Option (Text → Text))
      → Extends s (redact_message quote s r m).0
  unfolding redact_message redact
  redact_message-Extends s r (some render) = note_payload-Extends quote s (render r.msg)
  redact_message-Extends s r none = elim (Bool-cases r.is_str) [
    | inl e ↦ rw (e) (note_payload-Extends quote s r.msg)
    | inr e ↦ rw (e) (Extends-refl s)
  ]

  message-clean :
      (s : Secrets) (r : LogRecord) (m : Option (Text → Text))
      → IsRendered r m
      → Extends old s
      → all is_token (redact_message quote s r m).0 ≡ true
      → all_gone (redact_message quote s r m).1.msg old ≡ true
  unfolding redact_message
  message-clean s r (some render) shown e tokens = (redact-clean s (render r.msg) e tokens).1
  message-clean s r none shown e tokens = rw (shown) (redact-clean s r.msg e (rw shown at tokens)).1

  redact_traceback-Extends :
      (s : Secrets) (r : LogRecord) (t : Option Text) → Extends s (redact_traceback quote s r t).0
  unfolding redact_traceback redact
  redact_traceback-Extends s r none = redact_optional-Extends s r.exc_text
  redact_traceback-Extends s r (some trace) = elim (Bool-cases (is_missing r.exc_text)) [
    | inl e ↦ rw (e) (note_payload-Extends quote s trace)
    | inr e ↦ rw (e) (redact_optional-Extends s r.exc_text)
  ]

  traceback-IsClean :
      (s : Secrets) (r : LogRecord) (t : Option Text)
      → Extends old s
      → all is_token (redact_traceback quote s r t).0 ≡ true
      → IsClean old (redact_traceback quote s r t).1.exc_text
  unfolding redact_traceback
  traceback-IsClean s r none e tokens = optional-IsClean s r.exc_text e tokens
  traceback-IsClean s r (some trace) e tokens = elim (Bool-cases (is_missing r.exc_text)) [
    | inl h ↦ rw (h) (redact-clean s trace e (rw h at tokens)).1
    | inr h ↦ rw (h) (optional-IsClean s r.exc_text e (rw h at tokens))
  ]

  msg-redact_traceback :
      (s : Secrets) (r : LogRecord) (t : Option Text) → (redact_traceback quote s r t).1.msg ≡ r.msg
  unfolding redact_traceback
  msg-redact_traceback s r none = refl
  msg-redact_traceback s r (some trace) = elim (Bool-cases (is_missing r.exc_text)) [
    | inl h ↦ rw (h) refl
    | inr h ↦ rw (h) refl
  ]

  traceback-formatted :
      (s : Secrets) (r : LogRecord) (t : Option Text)
      → r.exc_info ≡ t
      → ((redact_traceback quote s r t).1.exc_info ≡ none)
        ⊎ (is_missing (redact_traceback quote s r t).1.exc_text ≡ false)
  unfolding redact_traceback
  traceback-formatted s r none e = inl e
  traceback-formatted s r (some trace) e = elim (Bool-cases (is_missing r.exc_text)) [
    | inl h ↦ inl (rw (h) refl)
    | inr h ↦ inr (rw (h) (nonempty-redact_optional s r.exc_text h))
  ]

  -- Every text that the record shows is clean; a traceback that is not formatted yet would be
  -- formatted only where there is no text of it.
  pub record IsCleanRecord (r : LogRecord) : Type 0 where
    message : all_gone r.msg old ≡ true
    traceback : IsClean old r.exc_text
    stack : IsClean old r.stack_info
    formatted : (r.exc_info ≡ none) ⊎ (is_missing r.exc_text ≡ false)

  redact_record-Extends : (s : Secrets) (r : LogRecord) → Extends s (redact_record quote s r).0
  unfolding redact_record
  redact_record-Extends s r =
      let a = redact_message quote s r r.render in
      let b = redact_traceback quote a.0 a.1 a.1.exc_info in
      Extends-trans s a.0 (redact_optional quote b.0 b.1.stack_info).0
        (redact_message-Extends s r r.render)
        (Extends-trans a.0 b.0 (redact_optional quote b.0 b.1.stack_info).0
          (redact_traceback-Extends a.0 a.1 a.1.exc_info)
          (redact_optional-Extends b.0 b.1.stack_info))

  pub record-clean :
      (s : Secrets) (r : LogRecord)
      → IsRendered r r.render
      → Extends old s
      → all is_token (redact_record quote s r).0 ≡ true
      → IsCleanRecord (redact_record quote s r).1
  unfolding redact_record
  record-clean s r shown e tokens =
      let a = redact_message quote s r r.render in
      let b = redact_traceback quote a.0 a.1 a.1.exc_info in
      let c = redact_optional quote b.0 b.1.stack_info in
      let old_a = Extends-trans old s a.0 e (redact_message-Extends s r r.render) in
      let a_b = redact_traceback-Extends a.0 a.1 a.1.exc_info in
      let old_b = Extends-trans old a.0 b.0 old_a a_b in
      let tokens_b =
        all-Extends is_token b.0 c.0 (redact_optional-Extends b.0 b.1.stack_info) tokens in
      let tokens_a = all-Extends is_token a.0 b.0 a_b tokens_b in
      record {
        message =
            ap (λ t. all_gone t old) (msg-redact_traceback a.0 a.1 a.1.exc_info)
            ∙ message-clean s r r.render shown e tokens_a;
        traceback = traceback-IsClean a.0 a.1 a.1.exc_info old_a tokens_b;
        stack = optional-IsClean b.0 b.1.stack_info old_b tokens;
        formatted = traceback-formatted a.0 a.1 a.1.exc_info refl;
      }
