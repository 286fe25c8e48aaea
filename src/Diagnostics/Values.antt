-- ===== src/Diagnostics/Values.antt =====
-- Dicts of custom_components/hdg_boiler/diagnostics.py as fields of a JSON object, and the redaction
-- of every text in them.
use hdg_bavaria_homeassistan.Prelude.{ℕ, suc, Text, text_eq, if◌then◌else◌}
use hdg_bavaria_homeassistan.Json.{
  Json, null, boolean, number, text, array, object, Items, nil, cons, Fields, end, field,
}
use hdg_bavaria_homeassistan.Redaction.{Secrets, redact}

unfoldable pub field_count : Fields → ℕ
field_count end = 0
field_count (field k v fs) = suc (field_count fs)

-- `d[key] = v`
unfoldable pub set_field : Text → Json → Fields → Fields
set_field k v end = field k v end
set_field k v (field j w fs) = if text_eq j k then field j v fs else field j w (set_field k v fs)

-- `d1 | d2`, as `**` in a dict display
unfoldable pub merge_fields : Fields → Fields → Fields
unfolding set_field
merge_fields fs end = fs
merge_fields fs (field k v more) = merge_fields (set_field k v fs) more

-- `_redact_diagnostics_value`, with the secrets before and after
unfoldable mutual
  unfolding redact

  pub redact_value : (Text → Text) → Secrets → Json → Secrets × Json
  redact_value quote secrets null = (secrets, null)
  redact_value quote secrets (boolean b) = (secrets, boolean b)
  redact_value quote secrets (number n) = (secrets, number n)
  redact_value quote secrets (text s) =
      let (noted, redacted) = redact quote secrets s in (noted, text redacted)
  redact_value quote secrets (array items) =
      let (noted, redacted) = redact_items quote secrets items in (noted, array redacted)
  redact_value quote secrets (object fs) =
      let (noted, redacted) = redact_fields quote secrets fs in (noted, object redacted)

  pub redact_items : (Text → Text) → Secrets → Items → Secrets × Items
  redact_items quote secrets nil = (secrets, nil)
  redact_items quote secrets (cons v vs) =
      let (first, redacted) = redact_value quote secrets v in
      let (noted, rest) = redact_items quote first vs in (noted, cons redacted rest)

  pub redact_fields : (Text → Text) → Secrets → Fields → Secrets × Fields
  redact_fields quote secrets end = (secrets, end)
  redact_fields quote secrets (field k v fs) =
      let (first, redacted) = redact_value quote secrets v in
      let (noted, rest) = redact_fields quote first fs in (noted, field k redacted rest)
