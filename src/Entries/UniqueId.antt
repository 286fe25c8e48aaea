-- ===== src/Entries/UniqueId.antt =====
-- From the unique ID of an entity back to its node: custom_components/hdg_boiler/entity.py and
-- custom_components/hdg_boiler/registry.py
use mathlib.Core.List.{reverse, reverse-append}
use hdg_bavaria_homeassistan.Prelude.{
  ℕ, ◌+◌, ◌-◌, ◌≡◌, refl, ap, ◌∙◌, Text, codes, Bool, true, false, not, ◌&&◌, ◌||◌, some, all,
  length, [], ◌∷◌, ◌++◌, ◌==◌, leb, arith,
}
use hdg_bavaria_homeassistan.Prelude.Dict.{Dict, lookup}
use hdg_bavaria_homeassistan.Texts.{first_chars, starts_with, ends_with}
use hdg_bavaria_homeassistan.Models.{SensorDefinition}
use hdg_bavaria_homeassistan.NodeId.{strip_hdg_node_suffix}
use hdg_bavaria_homeassistan.Registry.{get_node_id_by_key, node_id_of}
use hdg_bavaria_homeassistan.Entries.{
  unique_id, node_unique_id, prepend, split_from, split_parts, platform_suffixes, strip_platform,
  key_of_parts, entry_key, node_of_key, base_of, resolve_node_id_from_entity_entry,
}

abbrev pub not_colon : ℕ → Bool
not_colon c = not (c == b':')

split-free : (s : Text) → all not_colon s ≡ true → split_from false s ≡ s ∷ []
unfolding split_from prepend
split-free [] h = refl
split-free (c ∷ s) h = ground (arith, split-free s)

split-separator :
    (s rest : Text)
    → all not_colon s ≡ true
    → split_from false (s ++ b':' ∷ b':' ∷ rest) ≡ s ∷ split_from false rest
unfolding split_from prepend starts_with
split-separator [] rest h = refl
split-separator (c ∷ s) rest h = ground (arith, split-separator s rest)

starts-append : (p s : Text) → starts_with (p ++ s) p ≡ true
unfolding starts_with
starts-append [] s = refl
starts-append (c ∷ p) s = ground (arith, starts-append p s)

ends-append : (s p : Text) → ends_with (s ++ p) p ≡ true
unfolding ends_with
ends-append s p = rw (reverse-append s p) (starts-append (reverse p) (reverse s))

length-append : (s t : Text) → length (s ++ t) ≡ length s + length t
length-append [] t = omega arith
length-append (c ∷ s) t = omega (arith, length-append s t)

first_chars-append : (s t : Text) → first_chars (length s) (s ++ t) ≡ s
unfolding first_chars
first_chars-append [] t = refl
first_chars-append (c ∷ s) t = ap (λ x. c ∷ x) (first_chars-append s t)

strip_platform-sensor :
    (key : Text) → strip_platform platform_suffixes (key ++ codes "_sensor") ≡ key
unfolding strip_platform
strip_platform-sensor key =
    let cut : length (key ++ codes "_sensor") - 7 ≡ length key =
      omega (arith, length-append key (codes "_sensor")) in
    rw (ends-append key (codes "_sensor")) (rw (cut) (first_chars-append key (codes "_sensor")))

-- What `quote` does, as urllib documents it: it writes no colon, and leaves letters, digits and
-- underscores as they are.
abbrev pub is_plain : ℕ → Bool
is_plain c = leb b'a' c && leb c b'z' || leb b'0' c && leb c b'9' || c == b'_'

abbrev pub IsQuote : (Text → Text) → Type 0
IsQuote quote =
    ((s : Text) → all not_colon (quote s) ≡ true)
    × ((s : Text) → all is_plain s ≡ true → quote s ≡ s)

plain_key : (key : Text) → all is_plain key ≡ true → all is_plain (key ++ codes "_sensor") ≡ true
plain_key [] h = refl
plain_key (c ∷ key) h = ground (arith, plain_key key, h)

parts-unique_id :
    (quote : Text → Text) (device suffix : Text)
    → IsQuote quote
    → split_parts (unique_id quote device suffix)
      ≡ codes "hdg_boiler" ∷ quote device ∷ quote suffix ∷ []
unfolding split_parts unique_id
parts-unique_id quote device suffix (no_colon, keeps) =
    split-separator (codes "hdg_boiler") (quote device ++ (codes "::" ++ quote suffix)) refl
    ∙ ap (λ parts. codes "hdg_boiler" ∷ parts)
        (split-separator (quote device) (quote suffix) (no_colon device)
          ∙ ap (λ parts. quote device ∷ parts) (split-free (quote suffix) (no_colon suffix)))

-- From the unique ID of a node back to its key.
pub entry_key-node_unique_id :
    (quote : Text → Text) (device key : Text)
    → IsQuote quote
    → all is_plain key ≡ true
    → entry_key (node_unique_id quote device key) ≡ some key
unfolding entry_key node_unique_id key_of_parts
entry_key-node_unique_id quote device key good plain =
    let suffix = key ++ codes "_sensor" in
    ap key_of_parts (parts-unique_id quote device suffix good)
    ∙ ap (λ t. some (strip_platform platform_suffixes t)) (good.1 suffix (plain_key key plain))
    ∙ ap some (strip_platform-sensor key)

-- If quote writes no colon and keeps small letters, digits and underscores, then the unique ID of
-- the entity of a definition, whose key consists of these and whose node ID is not empty, leads
-- back to the base of the node ID.
pub resolve-node_unique_id :
    (quote : Text → Text) (device key : Text) (definitions : Dict SensorDefinition)
    (d : SensorDefinition) (c : ℕ) (n : Text)
    → IsQuote quote
    → all is_plain key ≡ true
    → lookup key definitions ≡ some d
    → d.hdg_node_id ≡ c ∷ n
    → resolve_node_id_from_entity_entry (node_unique_id quote device key) definitions
      ≡ some (strip_hdg_node_suffix (c ∷ n))
unfolding resolve_node_id_from_entity_entry node_of_key base_of get_node_id_by_key node_id_of
resolve-node_unique_id quote device key definitions d c n good plain found node =
    rw (entry_key-node_unique_id quote device key good plain, found, node) refl
