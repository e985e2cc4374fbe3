-- ===== src/WebSocket/Frames/Acceptance.antt =====
-- repram-mcp/src/node/ws-transport.ts: what a connection makes of any text: which frames reach its
-- owner, and which text it throws on.
use repram.Common.{
  ◌≡◌, ◌⊎◌, refl, true, false, ◌&&◌, Option-cases, Bool-cases, inl, inr, Option, none, some, List,
  [], Str, truthy, arith,
}
use repram.Auth.{Crypto, verify_buffer, verify_buffer_lem}
use repram.Wire.{Base64}
use repram.WebSocket.Frames.{
  AttachmentMessage, Signature, text, other, signature_bytes, Json, RawData, Parsed, parsed, null,
  invalid, Emission, ignored, malformed, thrown, Check, passes, raised, warns, Warning, raw_bytes,
  verify_given, check_signature, emissions, handle_frame, handle_parsed, handle_raw_message,
}

Check-cases : (c : Check) → (c ≡ passes) ⊎ (c ≡ raised) ⊎ ((w : Warning) × (c ≡ warns w))
Check-cases passes = inl refl
Check-cases raised = inr (inl refl)
Check-cases (warns w) = inr (inr (w, refl))

module _ {Value : Type 0} (json : Json Value) (crypto : Crypto) (cluster_secret : Str) where
  -- The signature of the frame codes the HMAC of its payload under the secret.
  abbrev pub Signed : AttachmentMessage Value → Type 0
  Signed frame =
      (payload : Value) × (signature : Signature) × (frame.payload ≡ some payload)
      × (frame.signature ≡ some signature)
      × (signature_bytes crypto signature
          ≡ some (crypto.hmac_sha256 cluster_secret (json.stringify payload)))

  -- The frame has a type and a payload, and a signature that is no string and of which no buffer can be
  -- made.
  abbrev pub HasUnreadableSignature : AttachmentMessage Value → Type 0
  HasUnreadableSignature frame =
      (type : Str) × (payload : Value) × (frame.type ≡ some type)
      × (frame.payload ≡ some payload)
      × (truthy type && json.is_truthy payload ≡ true)
      × (frame.signature ≡ some (other true none))

  verify_given-passes :
      (payload : Value) (signature : Signature)
      → verify_given json crypto cluster_secret payload signature ≡ passes
      → signature_bytes crypto signature
        ≡ some (crypto.hmac_sha256 cluster_secret (json.stringify payload))
  unfolding verify_given
  verify_given-passes payload signature h = elim (Option-cases (signature_bytes crypto signature)) [
    | inl unreadable ↦ absurd (ground (arith, unreadable, h))
    | inr (actual, given) ↦
        let right = verify_buffer_lem crypto cluster_secret (json.stringify payload) actual in
        elim (Bool-cases (verify_buffer crypto cluster_secret (json.stringify payload) actual)) [
          | inl same ↦ rw (given, right.0 same) refl
          | inr forged ↦ absurd (ground (arith, given, forged, h))
        ]
  ]

  check-Signed :
      (frame : AttachmentMessage Value) (payload : Value)
      → truthy cluster_secret ≡ true
      → frame.payload ≡ some payload
      → check_signature json crypto cluster_secret frame.signature payload ≡ passes
      → Signed frame
  unfolding check_signature
  check-Signed frame payload secret p right = elim (Option-cases frame.signature) [
    | inl missing ↦ absurd (ground (arith, secret, missing, right))
    | inr (signature, given) ↦ (
      payload,
      signature,
      p,
      given,
      verify_given-passes payload signature (ground (arith, secret, given, right)),
    )
  ]

  check_signature-raised :
      (given : Option Signature) (payload : Value)
      → check_signature json crypto cluster_secret given payload ≡ raised
      → given ≡ some (other true none)
  unfolding check_signature verify_given
  check_signature-raised none payload h = absurd (ground (arith, h))
  check_signature-raised (some (text s)) payload h = absurd (ground (arith, h))
  check_signature-raised (some (other true none)) payload h = refl
  check_signature-raised (some (other false none)) payload h = absurd (ground (arith, h))
  check_signature-raised (some (other true (some b))) payload h = absurd (ground (arith, h))
  check_signature-raised (some (other false (some b))) payload h = absurd (ground (arith, h))

  -- A frame is ignored, or it has a type and a payload that are there and the check decides.
  data Handled (b64 : Base64) (frame : AttachmentMessage Value) : Type 0 where
    dropped :
        (w : Warning)
        → handle_frame json crypto cluster_secret b64 frame ≡ ignored w
        → Handled b64 frame
    checked :
        (type : Str) (payload : Value)
        → frame.type ≡ some type
        → frame.payload ≡ some payload
        → truthy type && json.is_truthy payload ≡ true
        → Handled b64 frame

  handled : (b64 : Base64) (frame : AttachmentMessage Value) → Handled b64 frame
  unfolding handle_frame
  handled b64 frame = elim (Option-cases frame.type) [
    | inl untyped ↦ dropped malformed (rw (untyped, handle_frame) refl)
    | inr (type, t) ↦ elim (Option-cases frame.payload) [
      | inl empty ↦ dropped malformed (rw (t, empty, handle_frame) refl)
      | inr (payload, p) ↦ elim (Bool-cases (truthy type && json.is_truthy payload)) [
        | inl there ↦ checked type payload t p there
        | inr missing ↦ dropped malformed (ground (arith, t, p, missing))
      ]
    ]
  ]

  handle_frame-checked :
      (b64 : Base64) (frame : AttachmentMessage Value) (type : Str) (payload : Value) (c : Check)
      → frame.type ≡ some type
      → frame.payload ≡ some payload
      → truthy type && json.is_truthy payload ≡ true
      → check_signature json crypto cluster_secret frame.signature payload ≡ c
      → handle_frame json crypto cluster_secret b64 frame ≡ elim c [
        | warns warning ↦ ignored warning
        | raised ↦ thrown []
        | passes ↦ emissions json crypto cluster_secret b64 type frame payload
      ]
  unfolding handle_frame
  handle_frame-checked b64 frame type payload c t p there right = ground (arith, t, p, there, right)

  -- Every frame is ignored, or makes the listener throw before anything is emitted, or is signed.
  abbrev Outcome : Base64 → AttachmentMessage Value → Type 0
  Outcome b64 frame =
      ((w : Warning) × (handle_frame json crypto cluster_secret b64 frame ≡ ignored w))
      ⊎ ((handle_frame json crypto cluster_secret b64 frame ≡ thrown [])
          × HasUnreadableSignature frame)
      ⊎ Signed frame

  handle_frame-Outcome :
      (b64 : Base64) (frame : AttachmentMessage Value)
      → truthy cluster_secret ≡ true
      → Outcome b64 frame
  handle_frame-Outcome b64 frame secret = elim (handled b64 frame) [
    | dropped w e ↦ inl (w, e)
    | checked type payload t p there ↦
        elim (Check-cases (check_signature json crypto cluster_secret frame.signature payload)) [
          | inl right ↦ inr (inr (check-Signed frame payload secret p right))
          | inr (inl unreadable) ↦
              let signature = check_signature-raised frame.signature payload unreadable in
              inr (
                inl (
                  handle_frame-checked b64 frame type payload raised t p there unreadable,
                  (type, payload, t, p, there, signature),
                ))
          | inr (inr (w, warned)) ↦
              inl (w, handle_frame-checked b64 frame type payload (warns w) t p there warned)
        ]
  ]

  handle_frame-unreadable :
      (b64 : Base64) (frame : AttachmentMessage Value)
      → truthy cluster_secret ≡ true
      → HasUnreadableSignature frame
      → handle_frame json crypto cluster_secret b64 frame ≡ thrown []
  unfolding check_signature verify_given
  handle_frame-unreadable b64 frame secret (type, payload, t, p, there, bad) =
      handle_frame-checked b64 frame type payload raised t p there (ground (arith, secret, bad))

  -- What makes `handleRawMessage` throw without a signature.
  abbrev pub BreaksListener : Parsed Value → Type 0
  BreaksListener p =
      (p ≡ null)
      ⊎ ((frame : AttachmentMessage Value) × (p ≡ parsed frame) × HasUnreadableSignature frame)

  abbrev pub IsSigned : Parsed Value → Type 0
  IsSigned p = (frame : AttachmentMessage Value) × (p ≡ parsed frame) × Signed frame

  handle_parsed-thrown :
      (b64 : Base64) (p : Parsed Value) (es : List (Emission Value))
      → truthy cluster_secret ≡ true
      → handle_parsed json crypto cluster_secret b64 p ≡ thrown es
      → BreaksListener p ⊎ IsSigned p
  unfolding handle_parsed
  handle_parsed-thrown b64 invalid es secret h = cc
  handle_parsed-thrown b64 null es secret h = inl (inl refl)
  handle_parsed-thrown b64 (parsed frame) es secret h =
      elim (handle_frame-Outcome b64 frame secret) [
        | inl (w, e) ↦ cc
        | inr (inl (e, bad)) ↦ inl (inr (frame, refl, bad))
        | inr (inr signed) ↦ inr (frame, refl, signed)
      ]

  handle_parsed-breaks :
      (b64 : Base64) (p : Parsed Value)
      → truthy cluster_secret ≡ true
      → BreaksListener p
      → handle_parsed json crypto cluster_secret b64 p ≡ thrown []
  unfolding handle_parsed
  handle_parsed-breaks b64 p secret (inl e) = rw (e, handle_parsed) refl
  handle_parsed-breaks b64 p secret (inr (frame, e, bad)) =
      rw (e, handle_parsed) (handle_frame-unreadable b64 frame secret bad)

-- At a connection with a secret, a text that does not come in a frame with a right signature makes the
-- listener throw exactly in two cases, and then before anything is emitted: it is `null` for
-- `JSON.parse`, or it has a type and a payload, and a signature that is no string and of which
-- `Buffer.from` makes no buffer, such as a number.
pub handle_raw_message-thrown :
    {Value : Type 0} (json : Json Value) (crypto : Crypto) (cluster_secret : Str) (b64 : Base64)
    (raw : RawData)
    → truthy cluster_secret ≡ true
    → ((es : List (Emission Value))
        → handle_raw_message json crypto cluster_secret b64 raw ≡ thrown es
        → BreaksListener json crypto cluster_secret (json.parse (raw_bytes raw))
          ⊎ IsSigned json crypto cluster_secret (json.parse (raw_bytes raw)))
      × (BreaksListener json crypto cluster_secret (json.parse (raw_bytes raw))
          → handle_raw_message json crypto cluster_secret b64 raw ≡ thrown [])
unfolding handle_raw_message
handle_raw_message-thrown json crypto cluster_secret b64 raw secret =
    let p = json.parse (raw_bytes raw) in
    (
      λ es h. handle_parsed-thrown json crypto cluster_secret b64 p es secret h,
      λ breaks. handle_parsed-breaks json crypto cluster_secret b64 p secret breaks,
    )
