-- ===== src/Transport.antt =====
-- repram-mcp/src/node/transport.ts: `HTTPTransport`. JSON and `fetch` are parameters: `fetch`
-- answers with a response, or throws because of the timeout or for another reason.
use repram.Common.{
  ℕ, ◌≢◌, Bool, true, false, Option, none, some, List, ◌++◌, Str, js, truthy, decimal,
  if◌then◌else◌,
}
use repram.Wire.{NodeInfo, Message, WireMessage, Base64, message_to_wire, wire_to_message}
use repram.Auth.{Crypto, sign_body}

pub record Request : Type 0 where
  pub url : Str
  -- The header X-Repram-Signature.
  pub signature : Option Str
  pub body : List ℕ

pub data FetchOutcome : Type 0 where
  response : Bool → FetchOutcome
  aborted failed : FetchOutcome

pub data Log : Type 0 where
  sent status_rejected timed_out send_failed : Log

-- How a promise ends.
pub data Settled : Type 0 where
  resolved : Log → Settled
  rejected : Settled

-- The `try` block and its `catch`.
unfoldable pub settle : FetchOutcome → Settled
settle (response true) = resolved sent
settle (response false) = resolved status_rejected
settle aborted = resolved timed_out
settle failed = resolved send_failed

module _ (b64 : Base64) (crypto : Crypto) (stringify : WireMessage → List ℕ)
    (cluster_secret : Str) where
  unfoldable pub request_for : NodeInfo → Message → Request
  request_for target msg =
      let body = stringify (message_to_wire b64 msg) in
      record {
        url =
            js "http://"
            ++ (target.address
                ++ (js ":" ++ (decimal target.http_port ++ js "/v1/gossip/message")));
        signature =
            if truthy cluster_secret then some (sign_body crypto cluster_secret body) else none;
        body = body;
      }

  unfoldable pub send : (Request → FetchOutcome) → NodeInfo → Message → Settled
  unfolding request_for settle
  send fetch target msg = settle (fetch (request_for target msg))

-- Whatever `fetch` does, the promise of `send` resolves: a failure is only logged.
pub settle-resolved : (o : FetchOutcome) → settle o ≢ rejected
unfolding settle
settle-resolved (response true) e = cc
settle-resolved (response false) e = cc
settle-resolved aborted e = cc
settle-resolved failed e = cc

-- What the transport keeps: the handler for messages, which acts on a state of its owner.
pub record HttpTransport (Owner : Type 0) : Type 0 where
  pub message_handler : Option (Message → Owner → Owner)

module _ {Owner : Type 0} where
  -- `new HTTPTransport(...)`
  unfoldable pub init : HttpTransport Owner
  init = record { message_handler = none }

  unfoldable pub set_message_handler :
      HttpTransport Owner → (Message → Owner → Owner) → HttpTransport Owner
  set_message_handler t handler = record t { message_handler = some handler }

  unfoldable pub handle_incoming : Base64 → HttpTransport Owner → WireMessage → Owner → Owner
  handle_incoming b64 t wire_msg owner = elim t.message_handler [
    | none ↦ owner
    | some handler ↦ handler (wire_to_message b64 wire_msg) owner
  ]
