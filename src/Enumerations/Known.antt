-- ===== src/Enumerations/Known.antt =====
-- What the tables of custom_components/hdg_boiler/helpers/enum_mappings.py resolve.
use hdg_bavaria_homeassistan.Prelude.{
  three_true, ◌≡◌, refl, ap, Text, Bool, true, false, ◌&&◌, Option, none, some, text_eq,
  text_eq_iff,
}
use hdg_bavaria_homeassistan.Prelude.Dict.{Dict, lookup, all_items, all_items-lookup}
use hdg_bavaria_homeassistan.Texts.{upper_text}
use hdg_bavaria_homeassistan.Enumerations.{resolve_hdg_enum_key}
use hdg_bavaria_homeassistan.Enumerations.Tables.{hdg_enum_text_to_key_mappings}

abbrev is_key : Option Text → Text → Bool
is_key none key = false
is_key (some k) key = text_eq k key

abbrev resolves_to : Dict Text → Text → Text → Bool
resolves_to table text key = is_key (resolve_hdg_enum_key text table) key

-- Do the label, the key and the key in capitals resolve to the key?
abbrev item_resolves : Dict Text → Text → Text → Bool
item_resolves table text key =
    resolves_to table text key
    && resolves_to table key key
    && resolves_to table (upper_text key) key

tables_resolve :
    all_items (λ name table. all_items (item_resolves table) table) hdg_enum_text_to_key_mappings
    ≡ true
unfolding all_items resolve_hdg_enum_key text_eq upper_text
tables_resolve = refl

is_key-eq : (o : Option Text) (key : Text) → is_key o key ≡ true → o ≡ some key
is_key-eq none key h = absurd (cc)
is_key-eq (some k) key h = ap some ((text_eq_iff k key).0 h)

-- Each text of each enumeration table resolves to its key; the key itself and the key in capitals
-- resolve to it too.
pub known_texts_resolve :
    (name text key : Text) (table : Dict Text)
    → lookup name hdg_enum_text_to_key_mappings ≡ some table
    → lookup text table ≡ some key
    → (resolve_hdg_enum_key text table ≡ some key)
      × (resolve_hdg_enum_key key table ≡ some key)
      × (resolve_hdg_enum_key (upper_text key) table ≡ some key)
known_texts_resolve name text key table of_name of_text =
    let known =
      all_items-lookup (λ n t. all_items (item_resolves t) t) name table
        hdg_enum_text_to_key_mappings tables_resolve of_name in
    let item = all_items-lookup (item_resolves table) text key table known of_text in
    let (of_label, of_key, of_capitals) = three_true _ _ _ item in
    (
      is_key-eq (resolve_hdg_enum_key text table) key of_label,
      is_key-eq (resolve_hdg_enum_key key table) key of_key,
      is_key-eq (resolve_hdg_enum_key (upper_text key) table) key of_capitals,
    )
