-- ===== src/Seen.antt =====
-- repram-mcp/src/node/gossip.ts: the dedup cache, from message ids to the times at which they
-- expire. The source's MAX_SEEN_MESSAGES, 100,000, is the argument `max_seen`.
use repram.Common.{ℕ, ◌+◌, ◌*◌, Bool, true, false, not, List, [], ◌∷◌, Str, ltb, leb, if◌then◌else◌}
use repram.Common.JsMap.{JsMap, has, insert, retain, size}
pub mod Dedup
pub mod Window

abbrev pub seen_message_ttl_ms : ℕ
seen_message_ttl_ms = 60000

abbrev pub max_seen_messages : ℕ
max_seen_messages = 100000

abbrev pub SeenMessages : Type 0
SeenMessages = JsMap ℕ

-- `if (now >= expiry) this.seenMessages.delete(id)` over all entries.
abbrev pub fresh_at : ℕ → Str → ℕ → Bool
fresh_at now id expiry = not (leb expiry now)

unfoldable pub cleanup_seen_messages : ℕ → SeenMessages → SeenMessages
cleanup_seen_messages now seen = retain (fresh_at now) seen

-- `for (const expiry of values) if (expiry < earliest) earliest = expiry`
unfoldable pub earliest_expiry : ℕ → SeenMessages → ℕ
earliest_expiry earliest [] = earliest
earliest_expiry earliest ((id, expiry) ∷ seen) =
    earliest_expiry (if ltb expiry earliest then expiry else earliest) seen

-- `for (const expiry of values) if (expiry > latest) latest = expiry`
unfoldable pub latest_expiry : ℕ → SeenMessages → ℕ
latest_expiry latest [] = latest
latest_expiry latest ((id, expiry) ∷ seen) =
    latest_expiry (if ltb latest expiry then expiry else latest) seen

-- `expiry < midpoint` for `midpoint = earliest + (latest - earliest) / 2`, both sides doubled.
abbrev pub older_half : ℕ → ℕ → Str → ℕ → Bool
older_half earliest latest id expiry = ltb (2 * expiry) (earliest + latest)

unfoldable pub drop_oldest_half : ℕ → SeenMessages → SeenMessages
drop_oldest_half now seen =
    let earliest = earliest_expiry (now + seen_message_ttl_ms) seen in
    let latest = latest_expiry 0 seen in
    retain (λ id expiry. not (older_half earliest latest id expiry)) seen

unfoldable pub evict_seen : ℕ → ℕ → SeenMessages → SeenMessages
evict_seen max_seen now seen =
    let unexpired = retain (fresh_at now) seen in
    if leb max_seen (size unexpired) then drop_oldest_half now unexpired else unexpired

-- The cache after the call, and whether the id was there already.
unfoldable pub mark_seen : ℕ → ℕ → SeenMessages → Str → SeenMessages × Bool
mark_seen max_seen now seen message_id = if has message_id seen then (seen, true) else (
  insert message_id (now + seen_message_ttl_ms)
      (if leb max_seen (size seen) then evict_seen max_seen now seen else seen),
  false,
)
