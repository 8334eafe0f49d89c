-- ===== src/Protocol.antt =====
-- Packets, internal/protocol/packet.go and pair.go. The body of a packet is the JSON value that its
-- text decodes to: a pair body, or any other text, which does not decode as one.
pub mod Names
pub mod Framing
mod Tests
use kcd.Base.{ℕ, String, Bool, true, false, Option, none, some, List}
use kcd.Base.Int.{ℤ}

pub record PairBody : Type 0 where
  pub pair : Bool
  pub timestamp : ℤ

-- A version or a port that is not positive counts as 0 here.
pub record IdentityBody : Type 0 where
  pub device_id : String
  pub device_name : String
  pub device_type : String
  pub protocol_version : ℕ
  pub tcp_port : ℕ
  pub incoming_capabilities : List String
  pub outgoing_capabilities : List String
  pub target_device_id : String
  pub target_protocol_version : ℕ

pub data Body : Type 0 where
  pair_body : PairBody → Body
  other_body : String → Body

pub record Packet : Type 0 where
  pub id : ℕ
  pub typ : String
  pub body : Body

abbrev pub type_pair : String
type_pair = "kdeconnect.pair"

abbrev pub type_identity : String
type_identity = "kdeconnect.identity"

abbrev pub protocol_version : ℕ
protocol_version = 8

abbrev pub pair_accept : Bool
pair_accept = true

abbrev pub pair_reject : Bool
pair_reject = false

-- `now` is the clock's reading in milliseconds.
unfoldable pub new_pair_packet : Bool → ℤ → ℕ → Packet
new_pair_packet pair timestamp now = record {
  id = now;
  typ = type_pair;
  body = pair_body (record { pair = pair; timestamp = timestamp });
}

-- `json.Unmarshal` into a pair body.
unfoldable pub decode_pair_body : Body → Option PairBody
decode_pair_body (pair_body b) = some b
decode_pair_body (other_body text) = none
