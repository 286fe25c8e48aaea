-- ===== src/NodeId.antt =====
-- custom_components/hdg_boiler/helpers/string_utils.py: node ids of the boiler, "22003T" or "4050".
pub mod Suffix
use hdg_bavaria_homeassistan.Prelude.{
  ℕ, Text, Bool, true, false, ◌&&◌, ◌||◌, all, List, [], ◌∷◌, ◌++◌, leb, ◌==◌, if◌then◌else◌,
}
use hdg_bavaria_homeassistan.Texts.{is_decimal, is_digit, strip, upper_text, lower_text}

-- KNOWN_HDG_API_SETTER_SUFFIXES of const.py, in either case
pub is_suffix : ℕ → Bool
is_suffix c = leb b'T' c && leb c b'Y' || leb b't' c && leb c b'y'

-- The two parts of `_SUFFIX_PATTERN`: the longest run of digits, and what comes behind it.
pub take_digits : Text → Text
take_digits [] = []
take_digits (c ∷ s) = let rest = c ∷ take_digits s in if is_decimal c then rest else []

pub drop_digits : Text → Text
drop_digits [] = []
drop_digits (c ∷ s) = let rest = drop_digits s in if is_decimal c then rest else c ∷ s

-- `[TUVWXY]?$`: the `$` of `re` also stands before a newline that ends the text
pub is_suffix_end : Text → Bool
unfolding is_suffix
is_suffix_end [] = true
is_suffix_end (c ∷ []) = is_suffix c || c == 10
is_suffix_end (c ∷ d ∷ []) = is_suffix c && d == 10
is_suffix_end _ = false

-- `match[1]` where the text begins with these digits
matched : Text → Text → Text → Text
matched [] rest s = s
matched (c ∷ digits) rest s = if is_suffix_end rest then c ∷ digits else s

unfoldable pub strip_hdg_node_suffix : Text → Text
unfolding take_digits drop_digits is_suffix_end matched
strip_hdg_node_suffix [] = []
strip_hdg_node_suffix (c ∷ s) = matched (take_digits (c ∷ s)) (drop_digits (c ∷ s)) (c ∷ s)

unfoldable normalize_alias_for_comparison : Text → Text
normalize_alias_for_comparison alias = lower_text (strip alias)

-- `str.isdigit`
all_digits : Text → Bool
all_digits [] = false
all_digits (c ∷ s) = is_digit c && all is_digit s

add_t : Text → Text → Text
unfolding all_digits
add_t base s = if all_digits base then base ++ b'T' ∷ [] else s

unfoldable pub normalize_hdg_node_id : Text → Text
unfolding strip_hdg_node_suffix add_t
normalize_hdg_node_id [] = []
normalize_hdg_node_id (c ∷ raw) =
    let s = upper_text (strip (c ∷ raw)) in add_t (strip_hdg_node_suffix s) s
