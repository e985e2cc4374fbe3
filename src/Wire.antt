-- ===== src/Wire.antt =====
-- repram-mcp/src/node/types.ts and the conversions of repram-mcp/src/node/transport.ts: messages,
-- node descriptions, and the wire format with its optional fields. A `Date` is its milliseconds.
-- Base64 belongs to Node.js and is a parameter.
use repram.Common.{
  ℕ, ◌*◌, ◌/◌, Option, none, some, List, [], ◌∷◌, Str, truthy, default_enclave, nat_eq,
  if◌then◌else◌, ◌≡◌, ◌≢◌,
}
pub mod RoundTrip

-- The six types of the protocol, and any other string that stands in a message from the wire.
pub data MessageType : Type 0 where
  put get ping pong sync ack : MessageType
  other : Str → MessageType

pub record NodeInfo : Type 0 where
  pub id : Str
  pub address : Str
  pub port : ℕ
  pub http_port : ℕ
  pub enclave : Str

pub record Message : Type 0 where
  pub type : MessageType
  pub from : Str
  pub to : Str
  pub key : Str
  pub payload : List ℕ
  pub ttl : ℕ
  pub timestamp : ℕ
  pub message_id : Str
  pub node_info : Option NodeInfo

pub record WireNodeInfo : Type 0 where
  pub id : Str
  pub address : Str
  pub port : ℕ
  pub http_port : ℕ
  pub enclave : Option Str

pub record WireMessage : Type 0 where
  pub type : MessageType
  pub from : Str
  pub to : Option Str
  pub key : Option Str
  pub payload : Option Str
  pub ttl : Option ℕ
  pub timestamp : ℕ
  pub message_id : Str
  pub node_info : Option WireNodeInfo

-- `Buffer.toString("base64")` and `Buffer.from(s, "base64")`.
pub record Base64 : Type 0 where
  pub encode : List ℕ → Str
  pub decode : Str → List ℕ
  pub decode-encode : (b : List ℕ) → decode (encode b) ≡ b
  pub encode-ne-nil : (b : List ℕ) → b ≢ [] → encode b ≢ []

-- `x ?? d`
abbrev pub or_default {ℓ} : {A : Type ℓ} → A → Option A → A
or_default d none = d
or_default d (some x) = x

-- The field is set only where the string is truthy.
abbrev pub if_truthy : Str → Option Str
if_truthy s = if truthy s then some s else none

unfoldable pub node_info_to_wire : NodeInfo → WireNodeInfo
node_info_to_wire info = record {
  id = info.id;
  address = info.address;
  port = info.port;
  http_port = info.http_port;
  enclave = if_truthy info.enclave;
}

unfoldable pub wire_to_node_info : WireNodeInfo → NodeInfo
wire_to_node_info wire = record {
  id = wire.id;
  address = wire.address;
  port = wire.port;
  http_port = wire.http_port;
  enclave = or_default default_enclave wire.enclave;
}

-- A node that names no enclave is in the default one.
abbrev pub with_enclave : NodeInfo → NodeInfo
with_enclave n = record n { enclave = if truthy n.enclave then n.enclave else default_enclave }

abbrev pub map_option {ℓ κ} : {A : Type ℓ} {B : Type κ} → (A → B) → Option A → Option B
map_option f none = none
map_option f (some a) = some (f a)

module _ (b64 : Base64) where
  -- `if (msg.data && msg.data.length > 0) wire.data = msg.data.toString("base64")`
  abbrev pub payload_to_wire : List ℕ → Option Str
  payload_to_wire [] = none
  payload_to_wire (b ∷ bs) = some (b64.encode (b ∷ bs))

  -- `wire.data ? Buffer.from(wire.data, "base64") : Buffer.alloc(0)`
  abbrev pub payload_from_wire : Option Str → List ℕ
  payload_from_wire none = []
  payload_from_wire (some s) = if truthy s then b64.decode s else []

  unfoldable pub message_to_wire : Message → WireMessage
  unfolding node_info_to_wire
  message_to_wire msg = record {
    type = msg.type;
    from = msg.from;
    to = if_truthy msg.to;
    key = if_truthy msg.key;
    payload = payload_to_wire msg.payload;
    ttl = if nat_eq msg.ttl 0 then none else some msg.ttl;
    timestamp = msg.timestamp / 1000;
    message_id = msg.message_id;
    node_info = map_option node_info_to_wire msg.node_info;
  }

  unfoldable pub wire_to_message : WireMessage → Message
  unfolding wire_to_node_info
  wire_to_message wire = record {
    type = wire.type;
    from = wire.from;
    to = or_default [] wire.to;
    key = or_default [] wire.key;
    payload = payload_from_wire wire.payload;
    ttl = or_default 0 wire.ttl;
    timestamp = wire.timestamp * 1000;
    message_id = wire.message_id;
    node_info = map_option wire_to_node_info wire.node_info;
  }
