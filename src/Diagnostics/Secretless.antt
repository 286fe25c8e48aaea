-- ===== src/Diagnostics/Secretless.antt =====
-- What is left in the diagnostics: custom_components/hdg_boiler/diagnostics.py
use hdg_bavaria_homeassistan.Prelude.{◌≡◌, refl, Text, Bool, true, ◌&&◌, all}
use hdg_bavaria_homeassistan.Json.{
  Json, null, boolean, number, text, array, object, Items, nil, cons, Fields, end, field,
}
use hdg_bavaria_homeassistan.Redaction.{Secrets, redact}
use hdg_bavaria_homeassistan.Redaction.Secrets.{is_token, all_gone}
use hdg_bavaria_homeassistan.Redaction.Noted.{
  Extends, Extends-refl, Extends-trans, note_payload-Extends, all-Extends,
}
use hdg_bavaria_homeassistan.Logging.Covered.{redact-clean}
use hdg_bavaria_homeassistan.Diagnostics.Values.{redact_value, redact_items, redact_fields}

-- Is no secret of the list left in any text that is a value?
mutual
  pub clean_value : Secrets → Json → Bool
  clean_value secrets null = true
  clean_value secrets (boolean b) = true
  clean_value secrets (number n) = true
  clean_value secrets (text s) = all_gone s secrets
  clean_value secrets (array items) = clean_items secrets items
  clean_value secrets (object fs) = clean_fields secrets fs

  clean_items : Secrets → Items → Bool
  clean_items secrets nil = true
  clean_items secrets (cons v vs) = clean_value secrets v && clean_items secrets vs

  clean_fields : Secrets → Fields → Bool
  clean_fields secrets end = true
  clean_fields secrets (field k v fs) = clean_value secrets v && clean_fields secrets fs

module _ (quote : Text → Text) where
  mutual
    unfolding redact_value redact

    redact_value-Extends : (s : Secrets) (v : Json) → Extends s (redact_value quote s v).0
    redact_value-Extends s null = Extends-refl s
    redact_value-Extends s (boolean b) = Extends-refl s
    redact_value-Extends s (number n) = Extends-refl s
    redact_value-Extends s (text t) = note_payload-Extends quote s t
    redact_value-Extends s (array items) = redact_items-Extends s items
    redact_value-Extends s (object fs) = redact_fields-Extends s fs

    redact_items-Extends : (s : Secrets) (vs : Items) → Extends s (redact_items quote s vs).0
    redact_items-Extends s nil = Extends-refl s
    redact_items-Extends s (cons v vs) =
        let first = (redact_value quote s v).0 in
        Extends-trans s first (redact_items quote first vs).0 (redact_value-Extends s v)
          (redact_items-Extends first vs)

    redact_fields-Extends : (s : Secrets) (fs : Fields) → Extends s (redact_fields quote s fs).0
    redact_fields-Extends s end = Extends-refl s
    redact_fields-Extends s (field k v fs) =
        let first = (redact_value quote s v).0 in
        Extends-trans s first (redact_fields quote first fs).0 (redact_value-Extends s v)
          (redact_fields-Extends first fs)

  module _ (old : Secrets) where
    mutual
      unfolding redact_value clean_value

      value-clean :
          (s : Secrets) (v : Json)
          → Extends old s
          → all is_token (redact_value quote s v).0 ≡ true
          → clean_value old (redact_value quote s v).1 ≡ true
      value-clean s null e tokens = refl
      value-clean s (boolean b) e tokens = refl
      value-clean s (number n) e tokens = refl
      value-clean s (text t) e tokens = (redact-clean quote old s t e tokens).1
      value-clean s (array items) e tokens = items-clean s items e tokens
      value-clean s (object fs) e tokens = fields-clean s fs e tokens

      items-clean :
          (s : Secrets) (vs : Items)
          → Extends old s
          → all is_token (redact_items quote s vs).0 ≡ true
          → clean_items old (redact_items quote s vs).1 ≡ true
      items-clean s nil e tokens = refl
      items-clean s (cons v vs) e tokens =
          let first = (redact_value quote s v).0 in
          let later = redact_items-Extends first vs in
          let here =
            value-clean s v e
              (all-Extends is_token first (redact_items quote first vs).0 later tokens) in
          let rest =
            items-clean first vs (Extends-trans old s first e (redact_value-Extends s v)) tokens in
          rw (here) rest

      fields-clean :
          (s : Secrets) (fs : Fields)
          → Extends old s
          → all is_token (redact_fields quote s fs).0 ≡ true
          → clean_fields old (redact_fields quote s fs).1 ≡ true
      fields-clean s end e tokens = refl
      fields-clean s (field k v fs) e tokens =
          let first = (redact_value quote s v).0 in
          let later = redact_fields-Extends first fs in
          let here =
            value-clean s v e
              (all-Extends is_token first (redact_fields quote first fs).0 later tokens) in
          let rest =
            fields-clean first fs (Extends-trans old s first e (redact_value-Extends s v)) tokens in
          rw (here) rest
