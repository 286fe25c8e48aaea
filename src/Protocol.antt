-- ===== src/Protocol.antt =====
-- custom_components/hdg_boiler/api/protocols.py: the body of a read request and the parameters of
-- a write request, for the two firmware generations.
pub mod Payload
pub mod Decimal
use hdg_bavaria_homeassistan.Prelude.{
  ℕ, zero, suc, ◌+◌, ◌/◌, ◌%◌, Text, codes, List, [], ◌∷◌, ◌++◌, map, ltb, if◌then◌else◌,
}
use hdg_bavaria_homeassistan.Texts.{ends_with, join}

pub data ProtocolVersion : Type 0 where
  v1 v2 : ProtocolVersion

-- `s[:-1]`
pub drop_last : Text → Text
drop_last [] = []
drop_last (c ∷ []) = []
drop_last (c ∷ s) = c ∷ drop_last s

-- `_strip_trailing_t`
pub strip_trailing_t : Text → Text
unfolding ends_with drop_last
strip_trailing_t node_id = if ends_with node_id (codes "T") then drop_last node_id else node_id

-- `str(n)`; fuel `n + 1` is enough, since every division by ten makes `n` smaller
decimal_from : ℕ → ℕ → Text → Text
decimal_from zero n digits = digits
decimal_from (suc fuel) n digits =
    let more = decimal_from fuel (n / 10) ((b'0' + n % 10) ∷ digits) in
    if ltb n 10 then (b'0' + n) ∷ digits else more

unfoldable pub decimal : ℕ → Text
unfolding decimal_from
decimal n = decimal_from (suc n) n []

-- `ProtocolV2.generate_read_payload`
pub read_payload_v2 : List Text → Text
unfolding strip_trailing_t join
read_payload_v2 [] = codes "nodes="
read_payload_v2 (id ∷ ids) =
    codes "nodes=" ++ join (codes "T-") (map strip_trailing_t (id ∷ ids)) ++ codes "T"

-- `ProtocolV1.generate_read_payload`, from this index on
parts_v1 : ℕ → List Text → List Text
unfolding strip_trailing_t decimal
parts_v1 index [] = []
parts_v1 index (nid ∷ ids) =
    (codes "nodes%5B" ++ decimal index ++ codes "%5D%5Bid%5D=" ++ strip_trailing_t nid)
    ∷ (codes "nodes%5B" ++ decimal index ++ codes "%5D%5Btype%5D=text")
    ∷ parts_v1 (index + 1) ids

read_payload_v1 : List Text → Text
unfolding parts_v1 join
read_payload_v1 ids = join (codes "&") (parts_v1 0 ids)

unfoldable pub generate_read_payload : ProtocolVersion → List Text → Text
unfolding read_payload_v1 read_payload_v2
generate_read_payload v1 ids = read_payload_v1 ids
generate_read_payload v2 ids = read_payload_v2 ids

-- `generate_write_params`, the same in both versions: the dict {"i": …, "v": …}
unfoldable pub generate_write_params : ProtocolVersion → Text → Text → List (Text × Text)
generate_write_params version node_id value = (codes "i", node_id) ∷ (codes "v", value) ∷ []
