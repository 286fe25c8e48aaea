-- ===== src/Enumerations.antt =====
-- custom_components/hdg_boiler/helpers/enum_mappings.py: the texts of the boiler's enumerations and
-- their keys. Texts are Latin-1 for white space and case, with the dashes that the code names.
mod Examples
pub mod Tables
pub mod Known
use hdg_bavaria_homeassistan.Prelude.{
  ℕ, zero, suc, ◌+◌, Text, codes, Bool, true, false, ◌&&◌, ◌||◌, Option, none, some, List, [], ◌∷◌,
  ◌++◌, ◌-◌, map, ◌==◌, text_eq, if◌then◌else◌, leb,
}
use hdg_bavaria_homeassistan.Prelude.Dict.{Dict}
use hdg_bavaria_homeassistan.Texts.{is_space, strip, lower}

-- `_DASH_RE`
is_dash : ℕ → Bool
is_dash c = c == 173 || leb 8208 c && leb c 8212 || c == 8722

fold_dash : ℕ → ℕ
unfolding is_dash
fold_dash c = if is_dash c then b'-' else c

-- `_BR_TAG_RE`: the length of a tag at the start of the text; after `<br` and white space, a slash
-- may come before the `>`
close_length : ℕ → Text → Option ℕ
close_length n [] = none
close_length n (c ∷ s) = if c == b'>' then some (n + 1) else none

end_length : ℕ → Text → Option ℕ
unfolding close_length is_space
end_length n [] = none
end_length n (c ∷ s) =
    let rest = end_length (n + 1) s in
    if is_space c
    then rest
    else if c == b'/'
    then close_length (n + 1) s
    else close_length n (c ∷ s)

br_length : Text → Option ℕ
unfolding end_length lower
br_length (c ∷ d ∷ e ∷ s) =
    if c == b'<' && lower d == b'b' && lower e == b'r' then end_length 3 s else none
br_length s = none

-- `_BR_TAG_RE.sub(" ", text)`; the number counts the characters of a tag still to pass over
sub_br : ℕ → Text → Text
unfolding br_length
sub_br n [] = []
sub_br (suc n) (c ∷ s) = sub_br n s
sub_br zero (c ∷ s) = elim (br_length (c ∷ s)) [
  | none ↦ c ∷ sub_br 0 s
  | some n ↦ b' ' ∷ sub_br (n - 1) s
]

-- `.replace("\r", " ").replace("\n", " ")`
fold_line : ℕ → ℕ
fold_line c = if c == 13 || c == 10 then b' ' else c

-- `_WHITESPACE_RE.sub(" ", text)`, where the flag says that a space was just written for a run
squeeze : Bool → Text → Text
unfolding is_space
squeeze after [] = []
squeeze true (c ∷ s) = if is_space c then squeeze true s else c ∷ squeeze false s
squeeze false (c ∷ s) = if is_space c then b' ' ∷ squeeze true s else c ∷ squeeze false s

-- `str.casefold`
casefold_char : ℕ → Text
unfolding lower
casefold_char c = if c == 223 then codes "ss" else if c == 181 then 956 ∷ [] else lower c ∷ []

unfoldable pub casefold : Text → Text
unfolding casefold_char
casefold [] = []
casefold (c ∷ s) = casefold_char c ++ casefold s

-- `_fold_hdg_enum_text`
fold_hdg_enum_text : Text → Text
unfolding fold_dash sub_br fold_line squeeze strip casefold
fold_hdg_enum_text value =
    casefold (strip (squeeze false (map fold_line (sub_br 0 (map fold_dash value)))))

-- `_HYPHEN_BREAK_RE.sub("", text)`, where the flag says that the white space after a hyphen is passed
-- over
drop_hyphens : Bool → Text → Text
unfolding is_space
drop_hyphens after [] = []
drop_hyphens after (c ∷ s) =
    let more = drop_hyphens true s in
    let rest = drop_hyphens false s in
    if c == b'-' then more else if after && is_space c then more else c ∷ rest

-- `_compact_hdg_enum_text`
compact_hdg_enum_text : Text → Text
unfolding drop_hyphens fold_hdg_enum_text
compact_hdg_enum_text value = drop_hyphens false (fold_hdg_enum_text value)

-- the condition of `resolve_hdg_enum_key`
is_label_of : Text → Text → Text → Bool
unfolding text_eq fold_hdg_enum_text compact_hdg_enum_text casefold
is_label_of raw_value text key =
    text_eq (fold_hdg_enum_text text) (fold_hdg_enum_text raw_value)
    || text_eq (compact_hdg_enum_text text) (compact_hdg_enum_text raw_value)
    || text_eq (casefold key) (fold_hdg_enum_text raw_value)

unfoldable pub resolve_hdg_enum_key : Text → Dict Text → Option Text
unfolding is_label_of
resolve_hdg_enum_key raw_value [] = none
resolve_hdg_enum_key raw_value ((text, key) ∷ enum_map) =
    if is_label_of raw_value text key then some key else resolve_hdg_enum_key raw_value enum_map
