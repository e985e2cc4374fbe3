-- ===== src/Storage.antt =====
-- repram-mcp/src/node/storage.ts: the in-memory store with a mandatory TTL. The clock, `Date.now()`
-- in milliseconds, is an argument of each operation; a buffer is its list of bytes. `put` and the
-- cleanup subtract in the order of the source, on numbers that stop at 0.
use repram.Common.{
  ℕ, ◌+◌, ◌-◌, ◌*◌, ◌/◌, Bool, true, false, ◌&&◌, Option, none, some, List, [], ◌∷◌, Str, truthy,
  starts_with, ltb, leb, if◌then◌else◌, length,
}
use repram.Common.JsMap.{JsMap, lookup, insert, total, measure_at}
pub mod Accounting
pub mod Reads
pub mod History

abbrev pub Buffer : Type 0
Buffer = List ℕ

pub record Entry : Type 0 where
  pub data_bytes : Buffer
  pub created_at : ℕ
  pub ttl_seconds : ℕ
  pub expires_at : ℕ

pub record MemoryStore : Type 0 where
  pub entries : JsMap Entry
  pub current_bytes : ℕ
  pub max_bytes : ℕ
  -- `cleanupTimer` is set.
  pub cleanup_timer : Bool

-- An operation returns, or throws `StoreFull`.
pub data Result {ℓ} (A : Type ℓ) : Type ℓ where
  ok : A → Result A
  store_full : Result A

-- `new MemoryStore(maxBytes)`
unfoldable pub init : ℕ → MemoryStore
init max_bytes = record {
  entries = [];
  current_bytes = 0;
  max_bytes = max_bytes;
  cleanup_timer = true;
}

-- `entry.data.length`
abbrev pub entry_size : Entry → ℕ
entry_size e = length e.data_bytes

-- `if (existing) oldSize = existing.data.length`
abbrev pub old_size : Option Entry → ℕ
old_size = measure_at entry_size

abbrev pub new_entry : ℕ → Buffer → ℕ → Entry
new_entry now data_bytes ttl_seconds = record {
  data_bytes = data_bytes;
  created_at = now;
  ttl_seconds = ttl_seconds;
  expires_at = now + ttl_seconds * 1000;
}

unfoldable pub put : ℕ → MemoryStore → Str → Buffer → ℕ → Result MemoryStore
put now s key data_bytes ttl_seconds =
    let new_size = length data_bytes in
    let before = old_size (lookup key s.entries) in
    if ltb 0 s.max_bytes && ltb s.max_bytes (s.current_bytes - before + new_size)
    then store_full
    else ok (record s {
      entries = insert key (new_entry now data_bytes ttl_seconds) s.entries;
      current_bytes = s.current_bytes - before + new_size;
    })

-- `Date.now() >= entry.expiresAt`
abbrev pub expired : ℕ → Entry → Bool
expired now e = leb e.expires_at now

abbrev pub live : ℕ → Option Entry → Option Entry
live now none = none
live now (some e) = if expired now e then none else some e

unfoldable pub get_with_metadata : ℕ → MemoryStore → Str → Option Entry
get_with_metadata now s key = live now (lookup key s.entries)

abbrev pub data_of : Option Entry → Option Buffer
data_of none = none
data_of (some e) = some e.data_bytes

unfoldable pub get : ℕ → MemoryStore → Str → Option Buffer
get now s key = data_of (live now (lookup key s.entries))

-- The result of `exists`.
pub record Existence : Type 0 where
  pub present : Bool
  pub remaining_ttl_seconds : ℕ

abbrev pub absent : Existence
absent = record { present = false; remaining_ttl_seconds = 0 }

abbrev pub remaining : ℕ → Option Entry → Existence
remaining now none = absent
remaining now (some e) =
    if leb e.expires_at now
    then absent
    else record { present = true; remaining_ttl_seconds = (e.expires_at - now) / 1000 }

unfoldable pub exists : ℕ → MemoryStore → Str → Existence
exists now s key = remaining now (lookup key s.entries)

-- Not skipped by `if (prefix && !key.startsWith(prefix)) continue`.
abbrev pub passes : Option Str → Str → Bool
passes none key = true
passes (some prefix) key = if truthy prefix then starts_with prefix key else true

unfoldable pub scan_entries : ℕ → Option Str → JsMap Entry → List Str
scan_entries now prefix [] = []
scan_entries now prefix ((key, e) ∷ rest) =
    let keys = scan_entries now prefix rest in
    if expired now e then keys else if passes prefix key then key ∷ keys else keys

unfoldable pub scan : ℕ → MemoryStore → Option Str → List Str
unfolding scan_entries
scan now s prefix = scan_entries now prefix s.entries

-- `{ count, totalBytes }`
unfoldable pub get_stats : MemoryStore → ℕ × ℕ
get_stats s = (length s.entries, total entry_size s.entries)

unfoldable pub bytes_used : MemoryStore → ℕ
bytes_used s = s.current_bytes

unfoldable pub close : MemoryStore → MemoryStore
close s = record s { cleanup_timer = false }

-- The loop of `cleanupExpired`: the entries that stay, and the byte count.
unfoldable pub sweep : ℕ → ℕ → JsMap Entry → JsMap Entry × ℕ
sweep now bytes [] = ([], bytes)
sweep now bytes ((key, e) ∷ rest) =
    let (kept, left) = sweep now (if expired now e then bytes - entry_size e else bytes) rest in
    (if expired now e then kept else (key, e) ∷ kept, left)

unfoldable pub cleanup_expired : ℕ → MemoryStore → MemoryStore
unfolding sweep
cleanup_expired now s =
    let (kept, left) = sweep now s.current_bytes s.entries in
    record s { entries = kept; current_bytes = left }
