-- ===== src/Network/Post.antt =====
-- repram-mcp/src/node/transport.ts and server.ts: a message that is posted to a node over HTTP.
use repram.Common.{
  ℕ, ◌≡◌, ◌≤◌, ap, sym, true, false, Option, none, some, List, [], ◌∷◌, Str, truthy, if◌then◌else◌,
  length, map, arith, subst, ltb,
}
use repram.Storage.{Buffer}
use repram.Wire.{NodeInfo, Message, WireMessage, Base64, message_to_wire}
use repram.Wire.RoundTrip.{received, wire_to_message-message_to_wire}
use repram.Auth.{Crypto, sign_body, verify_body_lem}
use repram.Transport.{request_for}
use repram.Cluster.{ClusterNode}
use repram.Cluster.Receive.{receive}
use repram.Server.{ended, passed, body, verify_signature, concat, read_body}
use repram.Server.Body.{read_body_lem}
use repram.Server.Peers.{Served, gossip_handler, deliver}

module _ (b64 : Base64) (crypto : Crypto) (stringify : WireMessage → List ℕ)
    (parse : Buffer → Option WireMessage) (secret : Str) where
  verify_signature-request_for :
      (target : NodeInfo) (msg : Message)
      → ((content : List ℕ) → truthy (sign_body crypto secret content) ≡ true)
      → let request = request_for b64 crypto stringify secret target msg in
        verify_signature crypto secret request.body request.signature ≡ passed
  unfolding verify_signature request_for
  verify_signature-request_for target msg visible =
      let text = stringify (message_to_wire b64 msg) in
      let (_, right) = verify_body_lem crypto secret text (sign_body crypto secret text) in
      ground (arith, visible text, right)

  -- The handler's work on a message that has come in: what the node does with it, and 200 unless
  -- that throws.
  abbrev pub taken_by : (ℕ → ℕ) → ℕ → ℕ → ClusterNode → Message → Served
  taken_by draw max_seen now n msg =
      let outcome = receive draw max_seen now n msg in
      record {
        node = outcome.node;
        effects = outcome.effects;
        status = if outcome.threw then none else some 200;
        peers = [];
      }

  deliver-message_to_wire :
      (draw : ℕ → ℕ) (max_seen now : ℕ) (n : ClusterNode) (msg : Message)
      → deliver crypto b64 draw max_seen now secret n (message_to_wire b64 msg)
        ≡ taken_by draw max_seen now n (received msg)
  unfolding deliver
  deliver-message_to_wire draw max_seen now n msg =
      ap (taken_by draw max_seen now n) (wire_to_message-message_to_wire b64 msg)

  gossip_handler-request_for :
      (draw : ℕ → ℕ) (max_seen now : ℕ) (target : NodeInfo) (msg : Message) (n : ClusterNode)
      → ((w : WireMessage) → parse (stringify w) ≡ some w)
      → ((content : List ℕ) → truthy (sign_body crypto secret content) ≡ true)
      → let request = request_for b64 crypto stringify secret target msg in
        gossip_handler crypto b64 draw max_seen now secret parse n
          (body request.body)
          request.signature
        ≡ taken_by draw max_seen now n (received msg)
  unfolding gossip_handler
  gossip_handler-request_for draw max_seen now target msg n back visible =
      let right = verify_signature-request_for target msg visible in
      let read : parse (request_for b64 crypto stringify secret target msg).body
          ≡ some (message_to_wire b64 msg) =
        unfold request_for in back (message_to_wire b64 msg) in
      ground (arith, right, read, deliver-message_to_wire draw max_seen now n msg)

-- A message that is posted to a node with the same secret, whose body comes in any chunks and
-- within the limit, is handled there as it was sent, with all its fields but for the milliseconds of
-- its clock and an empty enclave, which becomes "default"; the response is 200 unless the node
-- throws. Signatures are not empty.
pub gossip_handler-send :
    (b64 : Base64) (crypto : Crypto) (stringify : WireMessage → List ℕ)
    (parse : Buffer → Option WireMessage) (secret : Str) (draw : ℕ → ℕ) (max_seen now max_bytes : ℕ)
    (target : NodeInfo) (msg : Message) (n : ClusterNode) (chunks : List Buffer)
    → ((w : WireMessage) → parse (stringify w) ≡ some w)
    → ((content : List ℕ) → truthy (sign_body crypto secret content) ≡ true)
    → concat chunks ≡ (request_for b64 crypto stringify secret target msg).body
    → length (request_for b64 crypto stringify secret target msg).body ≤ max_bytes
    → map
        (λ content.
          gossip_handler crypto b64 draw max_seen now secret parse n content
            (request_for b64 crypto stringify secret target msg).signature)
        (read_body max_bytes chunks ended)
      ≡ taken_by b64 crypto stringify parse secret draw max_seen now n (received msg) ∷ []
gossip_handler-send b64 crypto stringify parse secret draw max_seen now max_bytes target msg n
      chunks back visible whole_body fits =
    let size : length (concat chunks) ≤ max_bytes =
      subst (λ c. length c ≤ max_bytes) (sym whole_body) fits in
    let within : ltb max_bytes (length (concat chunks)) ≡ false = ground (arith, size) in
    rw (read_body_lem max_bytes chunks ended, within, whole_body)
      (ap (λ s. s ∷ [])
        (gossip_handler-request_for b64 crypto stringify parse secret draw max_seen now target msg n
          back visible))
