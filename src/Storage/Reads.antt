-- ===== src/Storage/Reads.antt =====
-- repram-mcp/src/node/storage.ts: what `get`, `exists` and `scan` answer after writes and sweeps.
use repram.Common.{
  ℕ, ◌+◌, ◌*◌, ◌≤◌, ◌≡◌, refl, ◌∙◌, Bool, true, false, ◌&&◌, Option, none, some, [], ◌∷◌, Str, ◌==◌,
  includes, arith, ltb, if◌then◌else◌,
}
use repram.Common.JsMap.{JsMap, IsMap, lookup, keep_if, lookup-insert, lookup-retain}
use repram.Storage.{
  MemoryStore, Entry, Buffer, ok, put, get, exists, scan, scan_entries, passes, cleanup_expired,
  live, data_of, new_entry, remaining,
}
use repram.Storage.Accounting.{IsValid, lives, put-ok, cleanup_expired_lem}

-- A read after a write that returned: the written key has the new bytes until its TTL has passed,
-- and every other key reads as before.
pub get-put :
    (now at : ℕ) (s : MemoryStore) (key j : Str) (data_bytes : Buffer) (ttl_seconds : ℕ)
    {s' : MemoryStore}
    → put now s key data_bytes ttl_seconds ≡ ok s'
    → get at s' j ≡ (
        if key == j
        then (if ltb at (now + ttl_seconds * 1000) then some data_bytes else none)
        else get at s j)
unfolding get
get-put now at s key j data_bytes ttl_seconds e = ground (
  arith,
  put-ok now s key data_bytes ttl_seconds e,
  lookup-insert key j (new_entry now data_bytes ttl_seconds) s.entries,
)

live-keep_if :
    (now at : ℕ) (key : Str) (o : Option Entry)
    → now ≤ at
    → live at (keep_if (lives now) key o) ≡ live at o
live-keep_if now at key none h = refl
live-keep_if now at key (some e) h = ground arith

pub live-cleanup_expired :
    (now at : ℕ) (s : MemoryStore) (key : Str)
    → IsValid s
    → now ≤ at
    → live at (lookup key (cleanup_expired now s).entries) ≡ live at (lookup key s.entries)
live-cleanup_expired now at s key v h =
    rw (cleanup_expired_lem now s v, lookup-retain (lives now) key s.entries v.distinct)
      (live-keep_if now at key (lookup key s.entries) h)

remaining-live : (at : ℕ) (o : Option Entry) → remaining at o ≡ remaining at (live at o)
remaining-live at none = refl
remaining-live at (some e) = ground arith

-- The sweep cannot be seen by a reader: at any time from the sweep on, `get` and `exists` answer
-- what they would have answered without it.
pub reads-cleanup_expired :
    (now at : ℕ) (s : MemoryStore) (key : Str)
    → IsValid s
    → now ≤ at
    → (get at (cleanup_expired now s) key ≡ get at s key)
      × (exists at (cleanup_expired now s) key ≡ exists at s key)
unfolding get exists
reads-cleanup_expired now at s key v h =
    let same = live-cleanup_expired now at s key v h in
    (
      rw same,
      rw (remaining-live at (lookup key (cleanup_expired now s).entries), same)
          (rw (← remaining-live at (lookup key s.entries))),
    )

includes-scan_entries-none :
    (now : ℕ) (prefix : Option Str) (k : Str) (m : JsMap Entry)
    → lookup k m ≡ none
    → includes k (scan_entries now prefix m) ≡ false
unfolding scan_entries includes lookup
includes-scan_entries-none now prefix k [] h = refl
includes-scan_entries-none now prefix k ((j, e) ∷ m) h =
    ground (arith, includes-scan_entries-none now prefix k m)

-- There is an entry, and it has not expired.
abbrev pub is_some {ℓ} : {A : Type ℓ} → Option A → Bool
is_some none = false
is_some (some a) = true

includes-scan_entries :
    (now : ℕ) (prefix : Option Str) (k : Str) (m : JsMap Entry)
    → IsMap m
    → includes k (scan_entries now prefix m) ≡ (is_some (live now (lookup k m)) && passes prefix k)
unfolding scan_entries includes lookup
includes-scan_entries now prefix k [] h = refl
includes-scan_entries now prefix k ((j, e) ∷ m) h =
    ground
      (arith, includes-scan_entries now prefix k m h.1, includes-scan_entries-none now prefix k m)

is_some-data_of : (o : Option Entry) → is_some (data_of o) ≡ is_some o
is_some-data_of none = refl
is_some-data_of (some e) = refl

present-remaining :
    (now : ℕ) (o : Option Entry) → (remaining now o).present ≡ is_some (data_of (live now o))
present-remaining now none = refl
present-remaining now (some e) = ground arith

-- A scan lists a key exactly when a `get` at that time would find it and it has the prefix, and
-- `exists` says the same of the key as `get`.
pub includes-scan :
    (now : ℕ) (s : MemoryStore) (prefix : Option Str) (k : Str)
    → IsValid s
    → (includes k (scan now s prefix) ≡ (is_some (get now s k) && passes prefix k))
      × ((exists now s k).present ≡ is_some (get now s k))
unfolding scan get exists
includes-scan now s prefix k v = (
  includes-scan_entries now prefix k s.entries v.distinct
      ∙ rw (is_some-data_of (live now (lookup k s.entries))),
  present-remaining now (lookup k s.entries),
)
