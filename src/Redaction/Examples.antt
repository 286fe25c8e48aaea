-- ===== src/Redaction/Examples.antt =====
-- The serial number of a boiler, in a fragment of its JSON and in a line of the log:
-- custom_components/hdg_boiler/helpers/logging_utils.py
use hdg_bavaria_homeassistan.Prelude.{◌≡◌, refl, Text, codes, true, false, [], ◌∷◌}
use hdg_bavaria_homeassistan.Redaction.Patterns.{mac_pattern}
use hdg_bavaria_homeassistan.Redaction.Tokens.{stands_in}
use hdg_bavaria_homeassistan.Redaction.Secrets.{all_gone, is_token, redact_hides}
use hdg_bavaria_homeassistan.Redaction.{Secrets, note_payload, redact}

-- A text that needs no quoting.
abbrev plain_quote : Text → Text
plain_quote s = s

abbrev one_host : Secrets
one_host = codes "192.168.0.5" ∷ []

abbrev answer : Text
answer = codes "192.168.0.5 says {\"id\":\"20026\",\"text\":\"HDG4711\"}"

serial-noted : note_payload plain_quote one_host answer ≡ codes "192.168.0.5" ∷ codes "HDG4711" ∷ []
unfolding note_payload
serial-noted = refl

redact_hides_example :
    (all_gone (redact plain_quote one_host answer).1 (redact plain_quote one_host answer).0 ≡ true)
    × (stands_in mac_pattern false (redact plain_quote one_host answer).1 ≡ false)
unfolding note_payload is_token
redact_hides_example = redact_hides plain_quote one_host answer refl
