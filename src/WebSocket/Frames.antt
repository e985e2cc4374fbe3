-- ===== src/WebSocket/Frames.antt =====
-- repram-mcp/src/node/ws-transport.ts: the frames of a `WebSocketConnection`, sent and received.
-- JSON belongs to JavaScript: a payload is a value of a type that is a parameter, and text is bytes.
use repram.Common.{
  ℕ, ◌≡◌, Bool, true, false, not, ◌&&◌, map, Option, none, some, List, [], ◌∷◌, ◌++◌, Str, truthy,
  js, includes, if◌then◌else◌,
}
use repram.Auth.{Crypto, sign_body, verify_buffer}
use repram.Wire.{Message, MessageType, WireMessage, Base64, message_to_wire, wire_to_message}
use repram.WebSocket.{WebSocketConnection, Action}
use repram.WebSocket.Closing.{send_frame}
pub mod Channel
pub mod Acceptance

pub data AttachmentMessageType : Type 0 where
  put ack ping pong topology_sync hello welcome goodbye : AttachmentMessageType

-- The string that a type is.
abbrev pub type_name : AttachmentMessageType → Str
type_name put = js "put"
type_name ack = js "ack"
type_name ping = js "ping"
type_name pong = js "pong"
type_name topology_sync = js "topology_sync"
type_name hello = js "hello"
type_name welcome = js "welcome"
type_name goodbye = js "goodbye"

-- A signature as it may come in JSON: a string, or another value, by its truth value and by the buffer
-- that `Buffer.from(value, "hex")` makes of it: an array is one of bytes, and a number makes it throw.
pub data Signature : Type 0 where
  text : Str → Signature
  other : Bool → Option (List ℕ) → Signature

-- An `AttachmentMessage`; `none` is a field that is missing. The type is any string, since a frame may
-- come from the socket; one that is not a string is as one that names no type.
pub record AttachmentMessage (Value : Type 0) : Type 0 where
  pub type : Option Str
  pub signature : Option Signature
  pub payload : Option Value

-- What `JSON.parse` makes of a text: it throws, or it returns `null`, or a value whose fields are read.
pub data Parsed (Value : Type 0) : Type 0 where
  invalid null : Parsed Value
  parsed : AttachmentMessage Value → Parsed Value

-- JSON for the values of payloads and for frames. A wire message is used as a value and a value as a
-- wire message, without a conversion; `none` is a value of which `wireToMessage` cannot make a
-- message, such as one with a number for its data, which makes `Buffer.from` throw.
pub record Json (Value : Type 0) : Type 0 where
  pub stringify : Value → List ℕ
  pub stringify_frame : AttachmentMessage Value → List ℕ
  pub parse : List ℕ → Parsed Value
  pub is_truthy : Value → Bool
  pub of_wire : WireMessage → Value
  pub as_wire : Value → Option WireMessage
  pub parse-stringify_frame : (f : AttachmentMessage Value) → parse (stringify_frame f) ≡ parsed f
  pub as_wire-of_wire : (w : WireMessage) → as_wire (of_wire w) ≡ some w
  -- An object is truthy.
  pub is_truthy-of_wire : (w : WireMessage) → is_truthy (of_wire w) ≡ true

-- The three forms in which ws hands over a message.
pub data RawData : Type 0 where
  buffer array_buffer : List ℕ → RawData
  buffers : List (List ℕ) → RawData

pub data Warning : Type 0 where
  invalid_json malformed missing_signature invalid_signature : Warning

pub data Emission (Value : Type 0) : Type 0 where
  attachment : AttachmentMessage Value → Emission Value
  message : Message → Emission Value

-- How the listener for a message ends: with a warning, with an exception after some emitted events, or
-- with emitted events.
pub data Received (Value : Type 0) : Type 0 where
  ignored : Warning → Received Value
  thrown : List (Emission Value) → Received Value
  emitted : List (Emission Value) → Received Value

unfoldable pub wire_message_type_to_attachment_type : MessageType → AttachmentMessageType
wire_message_type_to_attachment_type MessageType.put = put
wire_message_type_to_attachment_type MessageType.ack = ack
wire_message_type_to_attachment_type MessageType.ping = ping
wire_message_type_to_attachment_type MessageType.pong = pong
wire_message_type_to_attachment_type MessageType.sync = topology_sync
wire_message_type_to_attachment_type _ = put

abbrev pub gossip_types : List Str
gossip_types = map type_name (put ∷ ack ∷ ping ∷ pong ∷ topology_sync ∷ [])

unfoldable pub is_gossip_type : Str → Bool
is_gossip_type type = includes type gossip_types

unfoldable pub raw_bytes : RawData → List ℕ
raw_bytes (buffer b) = b
raw_bytes (array_buffer b) = b
raw_bytes (buffers []) = []
raw_bytes (buffers (b ∷ bs)) = b ++ raw_bytes (buffers bs)

-- What the check of a signature comes to; `raised` is an exception of `verifyBody`.
pub data Check : Type 0 where
  passes raised : Check
  warns : Warning → Check

abbrev pub is_truthy_signature : Signature → Bool
is_truthy_signature (text s) = truthy s
is_truthy_signature (other t b) = t

-- `Buffer.from(signature, "hex")`
abbrev pub signature_bytes : Crypto → Signature → Option (List ℕ)
signature_bytes crypto (text s) = some (crypto.from_hex s)
signature_bytes crypto (other t b) = b

module _ {Value : Type 0} (json : Json Value) (crypto : Crypto) (cluster_secret : Str) where
  -- The `signature` of a frame with this payload.
  unfoldable pub signature_of : Value → Option Signature → Option Signature
  signature_of payload given =
      if truthy cluster_secret
      then some (text (sign_body crypto cluster_secret (json.stringify payload)))
      else given

  unfoldable pub send_attachment_message :
      WebSocketConnection → AttachmentMessageType → Value → List Action
  unfolding signature_of
  send_attachment_message c type payload = send_frame c (
      json.stringify_frame (record {
        type = some (type_name type);
        signature = signature_of payload none;
        payload = some payload;
      }))

  unfoldable pub send_gossip_message : Base64 → WebSocketConnection → Message → List Action
  send_gossip_message b64 c msg =
      let wire = message_to_wire b64 msg in
      send_attachment_message c (wire_message_type_to_attachment_type wire.type) (json.of_wire wire)

  -- `verifyBody` of a signature that may not be a string.
  unfoldable pub verify_given : Value → Signature → Check
  verify_given payload signature = elim (signature_bytes crypto signature) [
    | none ↦ raised
    | some actual ↦
        if verify_buffer crypto cluster_secret (json.stringify payload) actual
        then passes
        else warns invalid_signature
  ]

  unfoldable pub check_signature : Option Signature → Value → Check
  unfolding verify_given
  check_signature given payload =
      if truthy cluster_secret
      then elim given [
        | none ↦ warns missing_signature
        | some signature ↦
            if not (is_truthy_signature signature)
            then warns missing_signature
            else verify_given payload signature
      ]
      else passes

  -- What a frame that has passed the checks comes to: the frame is emitted before its message is read.
  unfoldable pub emissions : Base64 → Str → AttachmentMessage Value → Value → Received Value
  emissions b64 type frame payload =
      if is_gossip_type type
      then elim (json.as_wire payload) [
        | none ↦ thrown (attachment frame ∷ [])
        | some wire ↦ emitted (attachment frame ∷ message (wire_to_message b64 wire) ∷ [])
      ]
      else emitted (attachment frame ∷ [])

  unfoldable pub handle_frame : Base64 → AttachmentMessage Value → Received Value
  unfolding check_signature emissions
  handle_frame b64 frame = elim frame.type [
    | none ↦ ignored malformed
    | some type ↦ elim frame.payload [
      | none ↦ ignored malformed
      | some payload ↦
          if not (truthy type && json.is_truthy payload)
          then ignored malformed
          else elim (check_signature frame.signature payload) [
            | warns warning ↦ ignored warning
            | raised ↦ thrown []
            | passes ↦ emissions b64 type frame payload
          ]
    ]
  ]

  -- The fields of `null` cannot be read, which the `try` around `JSON.parse` does not cover.
  unfoldable pub handle_parsed : Base64 → Parsed Value → Received Value
  unfolding handle_frame
  handle_parsed b64 invalid = ignored invalid_json
  handle_parsed b64 null = thrown []
  handle_parsed b64 (parsed frame) = handle_frame b64 frame

  unfoldable pub handle_raw_message : Base64 → RawData → Received Value
  unfolding handle_parsed
  handle_raw_message b64 content = handle_parsed b64 (json.parse (raw_bytes content))
