-- ===== src/Tests/Codec.antt =====
-- A concrete JSON for the examples: wire messages and frames as numbers, one field after the other.
use repram.Common.{
  ℕ, zero, suc, ◌≡◌, refl, ap, true, false, Option, none, some, List, [], ◌∷◌, Str, nat_eq,
  if◌then◌else◌,
}
use repram.Wire.{MessageType, WireNodeInfo, WireMessage}
use repram.Server.Peers.{BootstrapRequest}
use repram.WebSocket.Frames.{AttachmentMessage, Signature, text, other, parsed, Json}

-- What is written before a rest is read back, with the rest.
pub record Codec (A : Type 0) : Type 0 where
  pub enc : A → List ℕ → List ℕ
  pub dec : List ℕ → A × List ℕ
  pub dec-enc : (a : A) (rest : List ℕ) → dec (enc a rest) ≡ (a, rest)

dec_nat : List ℕ → ℕ × List ℕ
dec_nat [] = (0, [])
dec_nat (n ∷ rest) = (n, rest)

abbrev nat : Codec ℕ
unfolding dec_nat
nat = record { enc = λ n rest. n ∷ rest; dec = dec_nat; dec-enc = λ n rest. refl }

enc_str : Str → List ℕ → List ℕ
enc_str [] rest = 0 ∷ rest
enc_str (c ∷ s) rest = 1 ∷ c ∷ enc_str s rest

dec_str : List ℕ → Str × List ℕ
dec_str [] = ([], [])
dec_str (zero ∷ rest) = ([], rest)
dec_str (suc k ∷ []) = ([], [])
dec_str (suc k ∷ c ∷ rest) = let (s, left) = dec_str rest in (c ∷ s, left)

dec_str-enc_str : (s : Str) (rest : List ℕ) → dec_str (enc_str s rest) ≡ (s, rest)
unfolding dec_str enc_str
dec_str-enc_str [] rest = refl
dec_str-enc_str (c ∷ s) rest = rw (dec_str-enc_str s rest) refl

abbrev str : Codec Str
str = record { enc = enc_str; dec = dec_str; dec-enc = dec_str-enc_str }

module _ {A : Type 0} (c : Codec A) where
  enc_option : Option A → List ℕ → List ℕ
  enc_option none rest = 0 ∷ rest
  enc_option (some a) rest = 1 ∷ c.enc a rest

  dec_option : List ℕ → Option A × List ℕ
  dec_option [] = (none, [])
  dec_option (zero ∷ rest) = (none, rest)
  dec_option (suc k ∷ rest) = let (a, left) = c.dec rest in (some a, left)

  dec_option-enc_option :
      (o : Option A) (rest : List ℕ) → dec_option (enc_option o rest) ≡ (o, rest)
  unfolding dec_option enc_option
  dec_option-enc_option none rest = refl
  dec_option-enc_option (some a) rest = rw (c.dec-enc a rest) refl

abbrev option : {A : Type 0} → Codec A → Codec (Option A)
option c = record { enc = enc_option c; dec = dec_option c; dec-enc = dec_option-enc_option c }

module _ {A B : Type 0} (c : Codec A) (d : Codec B) where
  dec_pair : List ℕ → (A × B) × List ℕ
  dec_pair written = let (a, left) = c.dec written in let (b, rest) = d.dec left in ((a, b), rest)

  dec_pair-enc : (p : A × B) (rest : List ℕ) → dec_pair (c.enc p.0 (d.enc p.1 rest)) ≡ (p, rest)
  unfolding dec_pair
  dec_pair-enc p rest = rw (c.dec-enc p.0 (d.enc p.1 rest), d.dec-enc p.1 rest) refl

abbrev pair : {A B : Type 0} → Codec A → Codec B → Codec (A × B)
pair c d = record {
  enc = λ p rest. c.enc p.0 (d.enc p.1 rest);
  dec = dec_pair c d;
  dec-enc = dec_pair-enc c d;
}

module _ {A B : Type 0} (c : Codec A) (to : B → A) (back : A → B)
    (back-to : (b : B) → back (to b) ≡ b) where
  dec_via : List ℕ → B × List ℕ
  dec_via written = let (a, rest) = c.dec written in (back a, rest)

  dec_via-enc : (b : B) (rest : List ℕ) → dec_via (c.enc (to b) rest) ≡ (b, rest)
  unfolding dec_via
  dec_via-enc b rest = rw (c.dec-enc (to b) rest, back-to b) refl

-- Another type with the same content.
abbrev via :
    {A B : Type 0} (c : Codec A) (to : B → A) (back : A → B) → ((b : B) → back (to b) ≡ b) → Codec B
via c to back same = record {
  enc = λ b rest. c.enc (to b) rest;
  dec = dec_via c to back same;
  dec-enc = dec_via-enc c to back same;
}

type_code : MessageType → ℕ × Str
type_code MessageType.put = (0, [])
type_code MessageType.get = (1, [])
type_code MessageType.ping = (2, [])
type_code MessageType.pong = (3, [])
type_code MessageType.sync = (4, [])
type_code MessageType.ack = (5, [])
type_code (MessageType.other s) = (6, s)

type_of : ℕ × Str → MessageType
type_of (k, s) =
    if nat_eq k 0
    then MessageType.put
    else if nat_eq k 1
    then MessageType.get
    else if nat_eq k 2
    then MessageType.ping
    else if nat_eq k 3
    then MessageType.pong
    else if nat_eq k 4
    then MessageType.sync
    else if nat_eq k 5
    then MessageType.ack
    else MessageType.other s

type_of-type_code : (t : MessageType) → type_of (type_code t) ≡ t
unfolding type_of type_code
type_of-type_code MessageType.put = refl
type_of-type_code MessageType.get = refl
type_of-type_code MessageType.ping = refl
type_of-type_code MessageType.pong = refl
type_of-type_code MessageType.sync = refl
type_of-type_code MessageType.ack = refl
type_of-type_code (MessageType.other s) = refl

abbrev message_type : Codec MessageType
message_type = via (pair nat str) type_code type_of type_of-type_code

abbrev node_info : Codec WireNodeInfo
node_info =
    via (pair str (pair str (pair nat (pair nat (option str)))))
      (λ w. (w.id, (w.address, (w.port, (w.http_port, w.enclave)))))
      (λ (a, (b, (c, (d, e)))). record {
        id = a;
        address = b;
        port = c;
        http_port = d;
        enclave = e;
      })
      (λ w. refl)

abbrev wire_message : Codec WireMessage
wire_message =
    via
      (pair message_type (
        pair str (
          pair (option str) (
            pair (option str)
              (pair (option str) (pair (option nat) (pair nat (pair str (option node_info)))))))))
      (λ w. (
        w.type,
        (w.from, (w.to, (w.key, (w.payload, (w.ttl, (w.timestamp, (w.message_id, w.node_info))))))),
      ))
      (λ (a, (b, (c, (d, (e, (f, (g, (h, i)))))))). record {
        type = a;
        from = b;
        to = c;
        key = d;
        payload = e;
        ttl = f;
        timestamp = g;
        message_id = h;
        node_info = i;
      })
      (λ w. refl)

signature_code : Signature → ℕ × (Str × Option (List ℕ))
signature_code (text s) = (0, (s, none))
signature_code (other true b) = (1, ([], b))
signature_code (other false b) = (2, ([], b))

signature_from : ℕ × (Str × Option (List ℕ)) → Signature
signature_from (k, (s, b)) =
    if nat_eq k 0 then text s else if nat_eq k 1 then other true b else other false b

signature_from-signature_code : (s : Signature) → signature_from (signature_code s) ≡ s
unfolding signature_from signature_code
signature_from-signature_code (text s) = refl
signature_from-signature_code (other true b) = refl
signature_from-signature_code (other false b) = refl

abbrev signature : Codec Signature
signature =
    via (pair nat (pair str (option str))) signature_code signature_from
      signature_from-signature_code

abbrev frame : Codec (AttachmentMessage WireMessage)
frame =
    via (pair (option str) (pair (option signature) (option wire_message)))
      (λ f. (f.type, (f.signature, f.payload)))
      (λ (a, (b, c)). record { type = a; signature = b; payload = c }) (λ f. refl)

plain_parse-frame :
    (f : AttachmentMessage WireMessage) → parsed (frame.dec (frame.enc f [])).0 ≡ parsed f
plain_parse-frame f = rw (frame.dec-enc f []) refl

unfoldable pub plain_json : Json WireMessage
unfolding dec_via dec_via-enc dec_pair dec_pair-enc enc_option dec_option dec_option-enc_option
    enc_str dec_str dec_str-enc_str nat type_code type_of type_of-type_code signature_code
    signature_from signature_from-signature_code plain_parse-frame
plain_json = record {
  stringify = λ w. wire_message.enc w [];
  stringify_frame = λ f. frame.enc f [];
  parse = λ written. parsed (frame.dec written).0;
  is_truthy = λ w. true;
  of_wire = λ w. w;
  as_wire = λ w. some w;
  parse-stringify_frame = plain_parse-frame;
  as_wire-of_wire = λ w. refl;
  is_truthy-of_wire = λ w. refl;
}

abbrev request : Codec BootstrapRequest
request =
    via (pair str (pair str (pair nat (pair nat (option str)))))
      (λ r. (r.node_id, (r.address, (r.gossip_port, (r.http_port, r.enclave)))))
      (λ (a, (b, (c, (d, e)))). record {
        node_id = a;
        address = b;
        gossip_port = c;
        http_port = d;
        enclave = e;
      })
      (λ r. refl)

-- The JSON of a bootstrap request.
unfoldable pub request_text : BootstrapRequest → List ℕ
unfolding dec_via dec_via-enc dec_pair dec_pair-enc enc_option dec_option dec_option-enc_option
    enc_str dec_str dec_str-enc_str nat
request_text r = request.enc r []

unfoldable pub read_request : List ℕ → Option BootstrapRequest
unfolding dec_via dec_via-enc dec_pair dec_pair-enc enc_option dec_option dec_option-enc_option
    enc_str dec_str dec_str-enc_str nat
read_request written = some (request.dec written).0

pub read_request-request_text : (r : BootstrapRequest) → read_request (request_text r) ≡ some r
unfolding read_request request_text
read_request-request_text r = ap (λ p. some p.0) (request.dec-enc r [])

-- The JSON of a message.
unfoldable pub wire_text : WireMessage → List ℕ
unfolding dec_via dec_via-enc dec_pair dec_pair-enc enc_option dec_option dec_option-enc_option
    enc_str dec_str dec_str-enc_str nat type_code type_of type_of-type_code
wire_text w = wire_message.enc w []

unfoldable pub read_wire : List ℕ → Option WireMessage
unfolding dec_via dec_via-enc dec_pair dec_pair-enc enc_option dec_option dec_option-enc_option
    enc_str dec_str dec_str-enc_str nat type_code type_of type_of-type_code
read_wire written = some (wire_message.dec written).0

pub read_wire-wire_text : (w : WireMessage) → read_wire (wire_text w) ≡ some w
unfolding read_wire wire_text
read_wire-wire_text w = ap (λ p. some p.0) (wire_message.dec-enc w [])
