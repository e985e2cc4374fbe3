-- ===== src/Auth.antt =====
-- repram-mcp/src/node/auth.ts: signing and verifying a body. HMAC-SHA256 and the hexadecimal
-- coding of a buffer belong to Node.js and are parameters; `timingSafeEqual` is equality of bytes.
use repram.Common.{
  ℕ, ◌≡◌, ◌↔◌, Bool, true, false, List, Str, ◌==◌, nat_eq, if◌then◌else◌, length, arith,
}

pub record Crypto : Type 0 where
  -- `createHmac("sha256", secret).update(body).digest()`
  pub hmac_sha256 : Str → List ℕ → List ℕ
  pub to_hex : List ℕ → Str
  -- `Buffer.from(s, "hex")`
  pub from_hex : Str → List ℕ
  pub from_hex-to_hex : (b : List ℕ) → from_hex (to_hex b) ≡ b

module _ (c : Crypto) (secret : Str) (body : List ℕ) where
  unfoldable pub sign_body : Str
  sign_body = c.to_hex (c.hmac_sha256 secret body)

  -- The comparison of the signature that was made with the buffer of the one that was given.
  unfoldable pub verify_buffer : List ℕ → Bool
  unfolding sign_body
  verify_buffer actual =
      let expected = c.from_hex sign_body in
      if nat_eq (length expected) (length actual) then expected == actual else false

  unfoldable pub verify_body : Str → Bool
  unfolding verify_buffer
  verify_body signature = verify_buffer (c.from_hex signature)

  pub verify_buffer_lem :
      (actual : List ℕ) → (verify_buffer actual ≡ true) ↔ (actual ≡ c.hmac_sha256 secret body)
  unfolding verify_buffer
  verify_buffer_lem actual = ground (arith, c.from_hex-to_hex (c.hmac_sha256 secret body))

  -- A signature is accepted exactly when it codes the HMAC of the body under the secret, in
  -- whatever spelling; the signature that `signBody` makes is accepted.
  pub verify_body_lem :
      (signature : Str)
      → ((verify_body signature ≡ true) ↔ (c.from_hex signature ≡ c.hmac_sha256 secret body))
        × (verify_body sign_body ≡ true)
  unfolding verify_body verify_buffer
  verify_body_lem signature = ground (arith, c.from_hex-to_hex (c.hmac_sha256 secret body))
