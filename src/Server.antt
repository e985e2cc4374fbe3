-- ===== src/Server.antt =====
-- repram-mcp/src/node/server.ts: what the handlers of the HTTP API share: bodies that are read, and
-- signatures that are checked. A response is its status; `JSON.parse` and `parseInt` belong to
-- JavaScript and are arguments of the handlers.
use repram.Common.{
  ℕ, ◌+◌, ◌≡◌, refl, Bool, true, false, Option, none, some, List, [], ◌∷◌, ◌++◌, Str, truthy, ltb,
  if◌then◌else◌, length,
}
use repram.Storage.{Buffer}
use repram.Auth.{Crypto, verify_body}
pub mod Body
pub mod Keys
pub mod Puts
pub mod Peers
pub mod Config
pub mod Router
pub mod Upgrade
pub mod Lifecycle
pub mod Start

-- What `readBody` calls back with; `failed` is an error of the stream.
pub data BodyResult : Type 0 where
  body : Buffer → BodyResult
  too_large failed : BodyResult

pub data StreamEnd : Type 0 where
  ended errored : StreamEnd

-- The variables that the listeners of `readBody` share.
pub record Reading : Type 0 where
  pub chunks : List Buffer
  pub total_bytes : ℕ
  pub exceeded : Bool

-- `Buffer.concat(chunks)`
unfoldable pub concat : List Buffer → Buffer
concat [] = []
concat (c ∷ cs) = c ++ concat cs

-- The `data` listener: the variables, and the calls of the callback.
unfoldable pub on_data : ℕ → Reading → Buffer → Reading × List BodyResult
on_data max_bytes r chunk =
    let total = r.total_bytes + length chunk in
    if r.exceeded
    then (r, [])
    else if ltb max_bytes total
    then (record r { total_bytes = total; exceeded = true }, too_large ∷ [])
    else (record r { total_bytes = total; chunks = r.chunks ++ chunk ∷ [] }, [])

-- The `end` and `error` listeners.
unfoldable pub on_end : Reading → StreamEnd → List BodyResult
unfolding concat
on_end r ended = if r.exceeded then [] else body (concat r.chunks) ∷ []
on_end r errored = if r.exceeded then [] else failed ∷ []

unfoldable pub read_chunks : ℕ → Reading → List Buffer → StreamEnd → List BodyResult
unfolding on_data on_end
read_chunks max_bytes r [] end = on_end r end
read_chunks max_bytes r (chunk ∷ chunks) end =
    let (r', calls) = on_data max_bytes r chunk in calls ++ read_chunks max_bytes r' chunks end

-- The calls of the callback for a stream of chunks.
unfoldable pub read_body : ℕ → List Buffer → StreamEnd → List BodyResult
unfolding read_chunks
read_body max_bytes chunks end =
    read_chunks max_bytes (record { chunks = []; total_bytes = 0; exceeded = false }) chunks end

-- The outcome of `verifySignature`; both refusals are a 403.
pub data Verdict : Type 0 where
  passed missing_signature invalid_signature : Verdict

unfoldable pub verify_signature : Crypto → Str → Buffer → Option Str → Verdict
verify_signature c secret content sig =
    if truthy secret
    then elim sig [
      | none ↦ missing_signature
      | some s ↦
          if truthy s
          then if verify_body c secret content s then passed else invalid_signature
          else missing_signature
    ]
    else passed
