-- ===== src/Json.antt =====
-- A value that `response.json()` gives, as custom_components/hdg_boiler/api/client.py and
-- custom_components/hdg_boiler/classes/polling_response_processor.py read it. A number is held as
-- the text that `str` makes of it, and a dict has each key once.
use hdg_bavaria_homeassistan.Prelude.{
  Text, codes, Bool, true, false, ◌&&◌, Option, none, some, List, [], ◌∷◌, text_eq, if◌then◌else◌,
}

mutual
  pub data Json : Type 0 where
    null : Json
    boolean : Bool → Json
    number : Text → Json
    text : Text → Json
    array : Items → Json
    object : Fields → Json

  pub data Items : Type 0 where
    nil : Items
    cons : Json → Items → Items

  pub data Fields : Type 0 where
    end : Fields
    field : Text → Json → Fields → Fields

-- `d.get(key)`
unfoldable pub get_field : Text → Fields → Option Json
get_field key end = none
get_field key (field k v fs) = if text_eq k key then some v else get_field key fs

-- `d.get(key) == "…"`
unfoldable pub is_text : Text → Option Json → Bool
is_text t (some (text s)) = text_eq s t
is_text t _ = false

-- `key in d`
has_field : Text → Fields → Bool
unfolding get_field
has_field key fs = elim (get_field key fs) [ none ↦ false | some _ ↦ true ]

-- `isinstance(item, dict) and "id" in item and "text" in item`
pub is_node : Json → Bool
unfolding has_field
is_node (object fs) = has_field (codes "id") fs && has_field (codes "text") fs
is_node _ = false

unfoldable pub node_items : Items → List Json
unfolding is_node
node_items nil = []
node_items (cons j js) = let rest = node_items js in if is_node j then j ∷ rest else rest
