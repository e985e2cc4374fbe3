-- ===== src/WebSocket/Frames/Channel.antt =====
-- repram-mcp/src/node/ws-transport.ts: two connections with one secret, a message that goes from one
-- to the other, and what reaches the owner of a connection.
use repram.Common.{
  ℕ, ◌≡◌, refl, ◌∙◌, true, false, ◌&&◌, none, some, List, [], ◌∷◌, Str, truthy, str_discrete,
  includes, arith,
}
use repram.Auth.{Crypto, sign_body, verify_body, verify_body_lem}
use repram.Wire.{Message, MessageType, Base64, message_to_wire}
use repram.Wire.RoundTrip.{received, wire_to_message-message_to_wire}
use repram.WebSocket.{WebSocketConnection, sent}
use repram.WebSocket.Closing.{send_frame}
use repram.WebSocket.Frames.{
  AttachmentMessage, Json, RawData, emitted, attachment, message, type_name,
  wire_message_type_to_attachment_type, is_gossip_type, raw_bytes, signature_of, passes,
  verify_given, send_attachment_message, send_gossip_message, check_signature, emissions,
  handle_frame, handle_parsed, handle_raw_message,
}

gossip_type_of :
    (t : MessageType) → is_gossip_type (type_name (wire_message_type_to_attachment_type t)) ≡ true
unfolding is_gossip_type wire_message_type_to_attachment_type includes str_discrete
gossip_type_of MessageType.put = refl
gossip_type_of MessageType.get = refl
gossip_type_of MessageType.ping = refl
gossip_type_of MessageType.pong = refl
gossip_type_of MessageType.sync = refl
gossip_type_of MessageType.ack = refl
gossip_type_of (MessageType.other s) = refl

type_name-truthy :
    (t : MessageType) → truthy (type_name (wire_message_type_to_attachment_type t)) ≡ true
unfolding wire_message_type_to_attachment_type
type_name-truthy MessageType.put = refl
type_name-truthy MessageType.get = refl
type_name-truthy MessageType.ping = refl
type_name-truthy MessageType.pong = refl
type_name-truthy MessageType.sync = refl
type_name-truthy MessageType.ack = refl
type_name-truthy (MessageType.other s) = refl

module _ {Value : Type 0} (json : Json Value) (crypto : Crypto) (cluster_secret : Str) where
  -- The frame that carries a message.
  abbrev pub gossip_frame : Base64 → Message → AttachmentMessage Value
  gossip_frame b64 msg =
      let wire = message_to_wire b64 msg in
      let payload = json.of_wire wire in
      record {
        type = some (type_name (wire_message_type_to_attachment_type wire.type));
        signature = signature_of json crypto cluster_secret payload none;
        payload = some payload;
      }

  check-signature_of :
      (payload : Value)
      → ((content : List ℕ) → truthy (sign_body crypto cluster_secret content) ≡ true)
      → check_signature json crypto cluster_secret
          (signature_of json crypto cluster_secret payload none)
          payload
        ≡ passes
  unfolding check_signature signature_of verify_given verify_body
  check-signature_of payload visible =
      let content = json.stringify payload in
      let (_, right) =
        verify_body_lem crypto cluster_secret content (sign_body crypto cluster_secret content) in
      ground (arith, visible content, right)

  handle_frame-passes :
      (b64 : Base64) (frame : AttachmentMessage Value) (type : Str) (payload : Value)
      → frame.type ≡ some type
      → frame.payload ≡ some payload
      → truthy type && json.is_truthy payload ≡ true
      → check_signature json crypto cluster_secret frame.signature payload ≡ passes
      → handle_frame json crypto cluster_secret b64 frame
        ≡ emissions json crypto cluster_secret b64 type frame payload
  unfolding handle_frame
  handle_frame-passes b64 frame type payload t p there right = ground (arith, t, p, there, right)

  emissions-gossip :
      (b64 : Base64) (msg : Message)
      → let wire = message_to_wire b64 msg in
        let frame = gossip_frame b64 msg in
        emissions json crypto cluster_secret b64
          (type_name (wire_message_type_to_attachment_type wire.type))
          frame
          (json.of_wire wire)
        ≡ emitted (attachment frame ∷ message (received msg) ∷ [])
  unfolding emissions
  emissions-gossip b64 msg =
      let wire = message_to_wire b64 msg in
      rw
        (
          gossip_type_of wire.type,
          json.as_wire-of_wire wire,
          wire_to_message-message_to_wire b64 msg,
        )
        refl

  handle_frame-gossip :
      (b64 : Base64) (msg : Message)
      → ((content : List ℕ) → truthy (sign_body crypto cluster_secret content) ≡ true)
      → handle_frame json crypto cluster_secret b64 (gossip_frame b64 msg)
        ≡ emitted (attachment (gossip_frame b64 msg) ∷ message (received msg) ∷ [])
  handle_frame-gossip b64 msg visible =
      let wire = message_to_wire b64 msg in
      let type = type_name (wire_message_type_to_attachment_type wire.type) in
      let payload = json.of_wire wire in
      let there : truthy type && json.is_truthy payload ≡ true =
        (rw (type_name-truthy wire.type, json.is_truthy-of_wire wire) refl) in
      handle_frame-passes b64 (gossip_frame b64 msg) type payload refl refl there
        (check-signature_of payload visible)
      ∙ emissions-gossip b64 msg

-- A message that is sent over an open connection and comes out at one with the same secret, in
-- whatever fragments, is handed on there as a frame and as a message, with all its fields but for
-- the milliseconds of its clock and an empty enclave, which becomes "default". Signatures are not
-- empty.
pub handle_raw_message-send_gossip_message :
    {Value : Type 0} (json : Json Value) (crypto : Crypto) (cluster_secret : Str) (b64 : Base64)
    (c : WebSocketConnection) (msg : Message) (raw : RawData)
    → ((content : List ℕ) → truthy (sign_body crypto cluster_secret content) ≡ true)
    → c.closed ≡ false
    → send_gossip_message json crypto cluster_secret b64 c msg ≡ sent (raw_bytes raw) ∷ []
    → handle_raw_message json crypto cluster_secret b64 raw
      ≡ emitted (
          attachment (gossip_frame json crypto cluster_secret b64 msg)
          ∷ message (received msg)
          ∷ [])
unfolding handle_raw_message send_gossip_message send_attachment_message send_frame
handle_raw_message-send_gossip_message json crypto cluster_secret b64 c msg raw visible alive h =
    let frame = gossip_frame json crypto cluster_secret b64 msg in
    let text : raw_bytes raw ≡ json.stringify_frame frame = ground (arith, alive, h) in
    rw (text, handle_parsed, json.parse-stringify_frame frame)
      (handle_frame-gossip json crypto cluster_secret b64 msg visible)
