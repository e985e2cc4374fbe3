-- ===== src/Wire/RoundTrip.antt =====
-- repram-mcp/src/node/transport.ts: what a message keeps on its way over the wire.
use repram.Common.{
  ℕ, ◌*◌, ◌/◌, ◌≡◌, ◌≢◌, refl, ap, Option, none, some, List, [], ◌∷◌, Str, truthy, default_enclave,
  nat_eq, if◌then◌else◌, arith, true,
}
use repram.Wire.{
  NodeInfo, Message, Base64, message_to_wire, wire_to_message, node_info_to_wire, wire_to_node_info,
  with_enclave, map_option, or_default, if_truthy, payload_to_wire, payload_from_wire,
}

-- What arrives: the clock is cut to whole seconds.
abbrev pub received : Message → Message
received msg = record msg {
  timestamp = msg.timestamp / 1000 * 1000;
  node_info = map_option with_enclave msg.node_info;
}

or_default-if_truthy : (d s : Str) → or_default d (if_truthy s) ≡ (if truthy s then s else d)
or_default-if_truthy d [] = refl
or_default-if_truthy d (c ∷ s) = refl

or_default-if_truthy_nil : (s : Str) → or_default [] (if_truthy s) ≡ s
or_default-if_truthy_nil [] = refl
or_default-if_truthy_nil (c ∷ s) = refl

or_default-ttl : (n : ℕ) → or_default 0 (if nat_eq n 0 then none else some n) ≡ n
or_default-ttl n = ground arith

node_info_round_trip : (n : NodeInfo) → wire_to_node_info (node_info_to_wire n) ≡ with_enclave n
unfolding wire_to_node_info node_info_to_wire
node_info_round_trip n = rw (or_default-if_truthy default_enclave n.enclave)

option_round_trip :
    (o : Option NodeInfo)
    → map_option wire_to_node_info (map_option node_info_to_wire o) ≡ map_option with_enclave o
option_round_trip none = refl
option_round_trip (some n) = ap some (node_info_round_trip n)

truthy_of_ne_nil : (s : Str) → s ≢ [] → truthy s ≡ true
truthy_of_ne_nil [] h = absurd (h refl)
truthy_of_ne_nil (c ∷ s) h = refl

payload_round_trip : (b64 : Base64) (b : List ℕ) → payload_from_wire b64 (payload_to_wire b64 b) ≡ b
payload_round_trip b64 [] = refl
payload_round_trip b64 (x ∷ b) =
    rw (truthy_of_ne_nil _ (b64.encode-ne-nil (x ∷ b) (λ e. cc))) (b64.decode-encode (x ∷ b))

-- A message that goes over the wire arrives with every field, but for the milliseconds of its
-- clock and an empty enclave, which becomes "default": empty strings, an empty payload and a TTL of
-- 0 are left out on the wire and come back.
pub wire_to_message-message_to_wire :
    (b64 : Base64) (msg : Message) → wire_to_message b64 (message_to_wire b64 msg) ≡ received msg
unfolding wire_to_message message_to_wire
wire_to_message-message_to_wire b64 msg = rw (
  or_default-if_truthy_nil msg.to,
  or_default-if_truthy_nil msg.key,
  or_default-ttl msg.ttl,
  payload_round_trip b64 msg.payload,
  option_round_trip msg.node_info,
)
