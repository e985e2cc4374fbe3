-- ===== src/Server/Puts.antt =====
-- repram-mcp/src/node/server.ts: `PUT` and `GET` of `/v1/data/{key}`.
use repram.Common.{
  ℕ, ◌+◌, ◌-◌, ◌*◌, ◌/◌, ◌≤◌, ◌<◌, ◌≡◌, refl, ap, sym, ◌∙◌, min, max, Bool, true, false, Option,
  none, some, List, [], ◌∷◌, Str, truthy, ltb, if◌then◌else◌, arith, Bool-cases, Option-cases, inl,
  inr, eq_refl, ◌==◌, lt→ltb, length, ◌⊎◌,
}
use repram.Common.JsMap.{insert, lookup, lookup-insert_self}
use repram.Wire.{Message}
use repram.Gossip.{count_message}
use repram.Storage
use repram.Storage.{Buffer, Entry, new_entry, Result, ok, store_full, MemoryStore}
use repram.Storage.Accounting.{put-ok}
use repram.Cluster.{
  ClusterNode, Effect, Outcome, WriteStatus, created, accepted, write, WriteOperation, replicate,
  quorum_size, put_message, send_put, broadcast_effects,
}
use repram.Server.{BodyResult, body, too_large, failed}
pub mod Stored

-- The configured bounds of a TTL, in seconds.
pub record TtlBounds : Type 0 where
  pub min_ttl : ℕ
  pub max_ttl : ℕ

-- `ttl` after a parameter that `parse_int` reads: 0 for a negative number, none for NaN.
abbrev pub or_positive : Option ℕ → ℕ
or_positive none = 3600
or_positive (some parsed) = if ltb 0 parsed then parsed else 3600

abbrev pub header_ttl : (Str → Option ℕ) → Option Str → ℕ
header_ttl parse_int none = 3600
header_ttl parse_int (some h) = if truthy h then or_positive (parse_int h) else 3600

-- The query parameter, then the header, then an hour.
unfoldable pub requested_ttl : (Str → Option ℕ) → Option Str → Option Str → ℕ
requested_ttl parse_int none header = header_ttl parse_int header
requested_ttl parse_int (some q) header =
    if truthy q then or_positive (parse_int q) else header_ttl parse_int header

unfoldable pub clamp_ttl : TtlBounds → ℕ → ℕ
clamp_ttl bounds ttl = max bounds.min_ttl (min bounds.max_ttl ttl)

-- The status for a write that settles.
abbrev pub write_status : WriteStatus → ℕ
write_status accepted = 202
write_status created = 201

-- The status of a body that was not read.
abbrev pub body_status : BodyResult → ℕ
body_status too_large = 413
body_status _ = 400

-- What `putHandler` does: the node and the effects of its write, and the status it sends at once;
-- none where the response waits for the write to settle.
pub record PutHandled : Type 0 where
  pub node : ClusterNode
  pub effects : List Effect
  pub status : Option ℕ

unfoldable pub put_handler :
    (ℕ → ℕ)
    → ℕ
    → ℕ
    → ℕ
    → TtlBounds
    → (Str → Option ℕ)
    → ClusterNode
    → Str
    → BodyResult
    → Option Str
    → Option Str
    → PutHandled
unfolding requested_ttl clamp_ttl
put_handler draw max_seen now caller bounds parse_int n key (body content) query header =
    let ttl = clamp_ttl bounds (requested_ttl parse_int query header) in
    let outcome = write draw max_seen now caller n key content ttl in
    record {
      node = outcome.node;
      effects = outcome.effects;
      status = if outcome.threw then some 507 else none;
    }
put_handler draw max_seen now caller bounds parse_int n key too_large query header = record {
  node = n;
  effects = [];
  status = some (body_status too_large);
}
put_handler draw max_seen now caller bounds parse_int n key failed query header = record {
  node = n;
  effects = [];
  status = some (body_status failed);
}

-- The response of `getHandler`, with the values of its headers.
pub record GetResponse : Type 0 where
  pub status : ℕ
  pub created_at : Option ℕ
  pub original_ttl : Option ℕ
  pub remaining_ttl : Option ℕ
  pub content : Buffer

unfoldable pub get_handler : ℕ → ClusterNode → Str → GetResponse
get_handler now n key = elim (Storage.get_with_metadata now n.store key) [
  | none ↦ record {
    status = 404;
    created_at = none;
    original_ttl = none;
    remaining_ttl = none;
    content = [];
  }
  | some entry ↦ record {
    status = 200;
    created_at = some entry.created_at;
    original_ttl = some entry.ttl_seconds;
    remaining_ttl = some ((entry.expires_at - now) / 1000);
    content = entry.data_bytes;
  }
]
