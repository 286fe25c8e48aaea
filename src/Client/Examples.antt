-- ===== src/Client/Examples.antt =====
-- Requests to an old boiler and to a modern one: custom_components/hdg_boiler/api/client.py
use hdg_bavaria_homeassistan.Prelude.{
  ℕ, zero, suc, ◌≡◌, refl, Text, codes, text_eq, true, some, [], ◌∷◌,
}
use hdg_bavaria_homeassistan.Json.{Json, text, array, object, nil, end, field, node_items}
use hdg_bavaria_homeassistan.Protocol.{v1, v2}
use hdg_bavaria_homeassistan.Client.{
  Reply, parsed, replied, transport_failure, Client, init_client, ok, parse_reply, is_not_an_array,
  async_get_nodes_data,
}
use hdg_bavaria_homeassistan.Client.Discovery.{HasEnded, get_nodes_ends, legacy_boiler_is_found}

abbrev refusal : Json
refusal = object (
    field (codes "status") (text (codes "error"))
      (field (codes "value") (text (codes "nodes is not an array")) end))

-- An old boiler refuses the first request, and answers the others with an empty list.
abbrev old_boiler : ℕ → Text → Reply
old_boiler zero body = replied (codes "application/json") (parsed refusal)
old_boiler (suc n) body = replied (codes "application/json") (parsed (array nil))

get_nodes_ends_example :
    HasEnded old_boiler init_client
      (async_get_nodes_data old_boiler 2 (codes "24024T" ∷ []) init_client)
get_nodes_ends_example = get_nodes_ends old_boiler 0 (codes "24024T" ∷ []) init_client

abbrev no_boiler : ℕ → Text → Reply
no_boiler n body = transport_failure

abbrev asked_before : Client
asked_before = record { protocol = v2; protocol_auto_discovered = true; sent = 3 }

abbrev asked_again : Client
asked_again = record { protocol = v2; protocol_auto_discovered = true; sent = 4 }

legacy_boiler_is_found_example :
    async_get_nodes_data old_boiler 2 (codes "24024T" ∷ []) init_client
    ≡ some
        (ok (node_items nil), record { protocol = v1; protocol_auto_discovered = true; sent = 2 })
unfolding parse_reply is_not_an_array text_eq
legacy_boiler_is_found_example =
    legacy_boiler_is_found old_boiler 0 0 (codes "24024T" ∷ []) refusal nil refl refl refl
