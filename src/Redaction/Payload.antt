-- ===== src/Redaction/Payload.antt =====
-- `_note_secrets_in_node_payload` of custom_components/hdg_boiler/helpers/logging_utils.py: the
-- texts that a fragment of the boiler's JSON gives for the serial number and the MAC address.
use hdg_bavaria_homeassistan.Prelude.{
  ℕ, zero, suc, ◌-◌, Text, codes, Bool, false, not, ◌&&◌, Option, none, some, List, [], ◌∷◌, length,
  any, ◌==◌, text_eq, if◌then◌else◌,
}
use hdg_bavaria_homeassistan.Texts.{lower_text, lstrip, starts_with, contains, first_chars}
use hdg_bavaria_homeassistan.Enumerations.{casefold}

-- A key of a node, `id` or `text`, with the text of its value.
pub data NodeField : Type 0 where
  id_field text_field : Text → NodeField

-- `((?:\\.|[^"\\])*)"`: the rest of a string whose quote is open; the flag says that the character
-- before is a backslash that escapes this one
prepend_to : ℕ → Option (Text × Text) → Option (Text × Text)
prepend_to c none = none
prepend_to c (some (value, rest)) = some (c ∷ value, rest)

string_rest : Bool → Text → Option (Text × Text)
unfolding prepend_to
string_rest escaped [] = none
string_rest escaped (c ∷ s) =
    let rest = string_rest (not escaped && c == 92) s in
    if not escaped && c == b'"'
    then some ([], s)
    else if escaped && c == 10
    then none
    else prepend_to c rest

-- `\s*:\s*"` and the value
open_value : Text → Option (Text × Text)
unfolding string_rest
open_value [] = none
open_value (c ∷ s) = if c == b'"' then string_rest false s else none

value_behind : Text → Option (Text × Text)
unfolding open_value lstrip
value_behind [] = none
value_behind (c ∷ s) = if c == b':' then open_value (lstrip s) else none

field_of : (Text → NodeField) → Option (Text × Text) → Option (NodeField × Text)
field_of f none = none
field_of f (some (value, rest)) = some (f value, rest)

drop_chars : ℕ → Text → Text
drop_chars zero s = s
drop_chars (suc n) [] = []
drop_chars (suc n) (c ∷ s) = drop_chars n s

-- `"(id|text)"\s*:\s*"..."` at the start of the text, without regard to case
field_at : Text → Option (NodeField × Text)
unfolding field_of value_behind drop_chars lower_text starts_with lstrip first_chars
field_at s =
    if starts_with (lower_text (first_chars 4 s)) (codes "\"id\"")
    then field_of id_field (value_behind (lstrip (drop_chars 4 s)))
    else if starts_with (lower_text (first_chars 6 s)) (codes "\"text\"")
    then field_of text_field (value_behind (lstrip (drop_chars 6 s)))
    else none

-- `[^}]{0,n}?` and a field
second_field : ℕ → Text → Option (NodeField × Text)
unfolding field_at
second_field n [] = none
second_field zero (c ∷ s) = field_at (c ∷ s)
second_field (suc n) (c ∷ s) =
    let later = second_field n s in
    elim (field_at (c ∷ s)) [ none ↦ if c == b'}' then none else later | some found ↦ some found ]

-- `_SENSITIVE_NODE_TEXT_RE` at the start of the text
pair_at : Text → Option ((NodeField × NodeField) × Text)
unfolding field_at second_field
pair_at s = elim (field_at s) [
  | none ↦ none
  | some (first, rest) ↦ elim (second_field 300 rest) [
    | none ↦ none
    | some (second, after) ↦ some ((first, second), after)
  ]
]

-- `finditer`; the number counts the characters of a match that are still to pass over
pairs_from : ℕ → Text → List (NodeField × NodeField)
unfolding pair_at
pairs_from n [] = []
pairs_from (suc n) (c ∷ s) = pairs_from n s
pairs_from zero (c ∷ s) = elim (pair_at (c ∷ s)) [
  | none ↦ pairs_from 0 s
  | some (pair, after) ↦ pair ∷ pairs_from (length s - length after) s
]

-- the dict of a match: of two equal keys, the second counts
id_of : NodeField × NodeField → Text
id_of (_, id_field node_id) = node_id
id_of (id_field node_id, text_field text) = node_id
id_of (text_field first, text_field second) = []

text_of : NodeField × NodeField → Option Text
text_of (_, text_field text) = some text
text_of (text_field text, id_field node_id) = some text
text_of (id_field first, id_field second) = none

-- `_SENSITIVE_NODE_IDS`
abbrev sensitive_node_ids : List Text
sensitive_node_ids = codes "20026" ∷ codes "20026t" ∷ codes "20031" ∷ codes "20031t" ∷ []

is_sensitive : NodeField × NodeField → Bool
unfolding id_of casefold text_eq
is_sensitive pair = any (λ n. text_eq n (casefold (id_of pair))) sensitive_node_ids

secret_texts : List (NodeField × NodeField) → List Text
unfolding text_of is_sensitive
secret_texts [] = []
secret_texts (pair ∷ pairs) =
    let rest = secret_texts pairs in
    elim (text_of pair) [
      | none ↦ rest
      | some text ↦ if is_sensitive pair then text ∷ rest else rest
    ]

-- the values that `_note_secrets_in_node_payload` notes
unfoldable pub payload_secrets : Text → List Text
unfolding secret_texts pairs_from contains
payload_secrets data_text =
    if not (contains data_text (codes "20026")) && not (contains data_text (codes "20031"))
    then []
    else secret_texts (pairs_from 0 data_text)
