-- ===== src/Client.antt =====
-- custom_components/hdg_boiler/api/client.py, exceptions.py and helpers/executor.py: requests to
-- the boiler, the discovery of its protocol, and the errors that callers see. What the boiler
-- answers to the n-th request is the argument `send`, of the request's number and body.
mod Examples
pub mod Discovery
use hdg_bavaria_homeassistan.Prelude.{
  ℕ, zero, suc, ◌+◌, Text, codes, Bool, true, false, not, ◌&&◌, ◌||◌, Option, none, some, List, [],
  ◌∷◌, if◌then◌else◌,
}
use hdg_bavaria_homeassistan.Texts.{contains, lower_text}
use hdg_bavaria_homeassistan.Json.{
  Json, null, boolean, number, text, array, object, Items, Fields, get_field, is_text, node_items,
}
use hdg_bavaria_homeassistan.Models.{HdgCommand, CommandType}
use hdg_bavaria_homeassistan.Protocol.{
  ProtocolVersion, v1, v2, generate_read_payload, generate_write_params,
}

-- exceptions.py, and the `ValueError` of executor.py
pub data ApiError : Type 0 where
  hdg_api_error connection_error response_error preempted_error value_error : ApiError

-- How `response.json()` of aiohttp ends. It raises a ContentTypeError unless the header names a JSON
-- type, which text/plain is not, and a ValueError if the body is no JSON.
pub data JsonOutcome : Type 0 where
  content_type_error no_json : JsonOutcome
  parsed : Json → JsonOutcome

-- What comes back from the session. `transport_failure` is a `TimeoutError` or a `ClientError`,
-- `bad_status` the `ClientError` of `raise_for_status`, `unexpected` any other exception. A reply
-- has its Content-Type and what `response.json()` does on it.
pub data Reply : Type 0 where
  transport_failure bad_status unexpected : Reply
  replied : Text → JsonOutcome → Reply

pub record Client : Type 0 where
  pub protocol : ProtocolVersion
  pub protocol_auto_discovered : Bool
  -- how many requests were sent
  pub sent : ℕ

abbrev pub init_client : Client
init_client = record { protocol = v2; protocol_auto_discovered = false; sent = 0 }

pub data Result (A : Type 0) : Type 0 where
  ok : A → Result A
  err : ApiError → Result A

-- ACCEPTED_CONTENT_TYPES of const.py, sought in the lower-case header
is_accepted : Text → Bool
unfolding contains lower_text
is_accepted content_type =
    contains (lower_text content_type) (codes "application/json")
    || contains (lower_text content_type) (codes "text/plain")

-- The request up to its JSON: `raise_for_status`, `_parse_response` and the decorator
-- `handle_api_errors`.
parse_body : JsonOutcome → Result Json
parse_body content_type_error = err response_error
parse_body no_json = err response_error
parse_body (parsed j) = ok j

pub parse_reply : Reply → Result Json
unfolding is_accepted parse_body
parse_reply transport_failure = err connection_error
parse_reply bad_status = err connection_error
parse_reply unexpected = err hdg_api_error
parse_reply (replied content_type body) =
    if is_accepted content_type then parse_body body else err response_error

-- The answer of an old boiler to a request of the modern protocol.
pub is_not_an_array : Json → Bool
unfolding is_text get_field
is_not_an_array (object fs) =
    is_text (codes "error") (get_field (codes "status") fs)
    && is_text (codes "nodes is not an array") (get_field (codes "value") fs)
is_not_an_array _ = false

pub node_list : Json → Result (List Json)
unfolding node_items
node_list (array js) = ok (node_items js)
node_list _ = err response_error

-- What `async_get_nodes_data` does with the JSON; `again` is its call of itself.
pub after_reply :
    Result Json
    → Client
    → Option (Result (List Json) × Client)
    → Option (Result (List Json) × Client)
unfolding is_not_an_array node_list
after_reply (err e) asked again = some (err e, asked)
after_reply (ok j) asked again =
    if not asked.protocol_auto_discovered && is_not_an_array j
    then again
    else some (node_list j, record asked { protocol_auto_discovered = true })

-- `async_get_nodes_data`; `none` means that the fuel for its calls of itself ran out
pub async_get_nodes_data :
    (ℕ → Text → Reply) → ℕ → List Text → Client → Option (Result (List Json) × Client)
unfolding parse_reply after_reply generate_read_payload
async_get_nodes_data send zero ids c = none
async_get_nodes_data send (suc fuel) ids c =
    let asked = record c { sent = c.sent + 1 } in
    let again =
      async_get_nodes_data send fuel ids
        (record asked { protocol = v1; protocol_auto_discovered = true }) in
    after_reply (parse_reply (send c.sent (generate_read_payload c.protocol ids))) asked again

-- `async_set_node_value`: the reply to a write is not parsed
pub set_result : Reply → Result Bool
set_result (replied content_type body) = ok true
set_result unexpected = err hdg_api_error
set_result _ = err connection_error

unfoldable pub async_set_node_value :
    (ℕ → List (Text × Text) → Reply) → Text → Text → Client → Result Bool × Client
unfolding set_result generate_write_params
async_set_node_value send node_id value c = (
  set_result (send c.sent (generate_write_params c.protocol node_id value)),
  record c { sent = c.sent + 1 },
)

-- What a command returns.
pub data ApiResult : Type 0 where
  nodes : List Json → ApiResult
  done : Bool → ApiResult

-- The boiler, for both kinds of request.
pub record Boiler : Type 0 where
  pub read : ℕ → Text → Reply
  pub write : ℕ → List (Text × Text) → Reply

abbrev with_nodes : Option (Result (List Json) × Client) → Option (Result ApiResult × Client)
with_nodes none = none
with_nodes (some (ok js, c)) = some (ok (nodes js), c)
with_nodes (some (err e, c)) = some (err e, c)

abbrev with_done : Result Bool × Client → Result ApiResult × Client
with_done (ok b, c) = (ok (done b), c)
with_done (err e, c) = (err e, c)

-- `HdgCommandExecutor.execute`
read_nodes : Boiler → ℕ → Option (List Text) → Client → Option (Result ApiResult × Client)
read_nodes b fuel (some (id ∷ ids)) c = with_nodes (async_get_nodes_data b.read fuel (id ∷ ids) c)
read_nodes b fuel _ c = some (err value_error, c)

write_node : Boiler → Option Text → Option Text → Client → Result ApiResult × Client
write_node b (some node_id) (some value) c =
    with_done (async_set_node_value b.write node_id value c)
write_node b _ _ c = (err value_error, c)

execute_as : CommandType → Boiler → ℕ → HdgCommand → Client → Option (Result ApiResult × Client)
execute_as CommandType.get_nodes b fuel command c = read_nodes b fuel command.node_ids c
execute_as CommandType.set_node b fuel command c =
    some (write_node b command.node_id command.value c)

unfoldable execute : Boiler → ℕ → HdgCommand → Client → Option (Result ApiResult × Client)
unfolding execute_as read_nodes write_node async_get_nodes_data async_set_node_value
execute b fuel command c = execute_as command.cmd_type b fuel command c
