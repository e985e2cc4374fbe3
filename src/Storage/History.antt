-- ===== src/Storage/History.antt =====
-- repram-mcp/src/node/storage.ts: the store against a history of timed writes and sweeps. The
-- specification keeps for each key the entry last written, for ever, and looks at the clock when
-- it is read.
use repram.Common.{
  ℕ, ◌+◌, ◌-◌, ◌≤◌, ◌≡◌, refl, ap, sym, subst, ◌∙◌, Option, none, some, List, [], ◌∷◌, Str, ◌==◌,
  arith, if◌then◌else◌, length,
}
use repram.Common.JsMap.{lookup, insert, lookup-insert}
use repram.Storage.{
  MemoryStore, Entry, Buffer, Result, ok, store_full, init, put, get, cleanup_expired, live,
  data_of, new_entry, old_size,
}
use repram.Storage.Accounting.{IsValid, put-ok, put-IsValid, cleanup_expired-IsValid, init-IsValid}
use repram.Storage.Reads.{live-cleanup_expired}

pub data Call : Type 0 where
  write : Str → Buffer → ℕ → Call
  cleanup : Call

-- A write that throws leaves the store as it was.
abbrev pub after : MemoryStore → Result MemoryStore → MemoryStore
after s (ok s') = s'
after s store_full = s

unfoldable pub step : ℕ → Call → MemoryStore → MemoryStore
step now (write key data_bytes ttl_seconds) s = after s (put now s key data_bytes ttl_seconds)
step now cleanup s = cleanup_expired now s

unfoldable pub run : List (ℕ × Call) → MemoryStore → MemoryStore
unfolding step
run [] s = s
run ((now, c) ∷ cs) s = run cs (step now c s)

-- Every call was made by the time given.
abbrev pub AllBefore : List (ℕ × Call) → ℕ → Type 0
AllBefore [] at = Unit
AllBefore ((now, c) ∷ cs) at = (now ≤ at) × AllBefore cs at

-- The entry that the history wrote last under a key.
unfoldable pub last_written : Str → List (ℕ × Call) → Option Entry → Option Entry
last_written k [] o = o
last_written k ((now, write key data_bytes ttl_seconds) ∷ cs) o =
    last_written k cs (if key == k then some (new_entry now data_bytes ttl_seconds) else o)
last_written k ((now, cleanup) ∷ cs) o = last_written k cs o

unlimited-put :
    (now : ℕ) (s : MemoryStore) (key : Str) (data_bytes : Buffer) (ttl_seconds : ℕ)
    → s.max_bytes ≡ 0
    → (s' : MemoryStore) × (put now s key data_bytes ttl_seconds ≡ ok s')
unfolding put
unlimited-put now s key data_bytes ttl_seconds h = (
  record s {
    entries = insert key (new_entry now data_bytes ttl_seconds) s.entries;
    current_bytes = s.current_bytes - old_size (lookup key s.entries) + length data_bytes;
  },
  ground arith,
)

cleanup_expired-max_bytes :
    (now : ℕ) (s : MemoryStore) → (cleanup_expired now s).max_bytes ≡ s.max_bytes
unfolding cleanup_expired
cleanup_expired-max_bytes now s = refl

-- The entry of the specification and the store's own are alive together, and equal then.
abbrev Tracks : ℕ → Str → MemoryStore → Option Entry → Type 0
Tracks at k s o = IsValid s × (s.max_bytes ≡ 0) × (live at (lookup k s.entries) ≡ live at o)

abbrev noted : ℕ → Str → Call → Option Entry → Option Entry
noted now k (write key data_bytes ttl_seconds) o =
    if key == k then some (new_entry now data_bytes ttl_seconds) else o
noted now k cleanup o = o

step-Tracks :
    (at : ℕ) (k : Str) (now : ℕ) (c : Call) (s : MemoryStore) (o : Option Entry)
    → now ≤ at
    → Tracks at k s o
    → Tracks at k (step now c s) (noted now k c o)
unfolding step
step-Tracks at k now (write key data_bytes ttl_seconds) s o h (v, m, e) =
    let entry = new_entry now data_bytes ttl_seconds in
    let (s', done) = unlimited-put now s key data_bytes ttl_seconds m in
    let (held, same_max, _, _) = put-ok now s key data_bytes ttl_seconds done in
    let o' : Option Entry = if key == k then some entry else o in
    let agree : live at (lookup k s'.entries) ≡ live at o' =
      rw (held, lookup-insert key k entry s.entries) (ground arith) in
    subst (λ r. Tracks at k (after s r) o') (sym done)
      (put-IsValid now s key data_bytes ttl_seconds v done, same_max ∙ m, agree)
step-Tracks at k now cleanup s o h (v, m, e) = (
  cleanup_expired-IsValid now s v,
  cleanup_expired-max_bytes now s ∙ m,
  live-cleanup_expired now at s k v h ∙ e,
)

run-Tracks :
    (at : ℕ) (k : Str) (cs : List (ℕ × Call)) (s : MemoryStore) (o : Option Entry)
    → AllBefore cs at
    → Tracks at k s o
    → Tracks at k (run cs s) (last_written k cs o)
unfolding run last_written
run-Tracks at k [] s o h t = t
run-Tracks at k ((now, write key data_bytes ttl_seconds) ∷ cs) s o h t =
    run-Tracks at k cs _ _ h.1 (step-Tracks at k now (write key data_bytes ttl_seconds) s o h.0 t)
run-Tracks at k ((now, cleanup) ∷ cs) s o h t =
    run-Tracks at k cs _ _ h.1 (step-Tracks at k now cleanup s o h.0 t)

-- Without a capacity, after any history of writes and sweeps made by the time of the read, `get`
-- answers the bytes last written under the key if that write's TTL has not passed, and nothing
-- otherwise: no sweep and no write of another key shows.
pub get-run :
    (at : ℕ) (k : Str) (cs : List (ℕ × Call))
    → AllBefore cs at
    → get at (run cs (init 0)) k ≡ data_of (live at (last_written k cs none))
unfolding get
get-run at k cs h =
    ap data_of ((run-Tracks at k cs (init 0) none h (init-IsValid 0, init-max_bytes, init-empty)).2)
  where
    init-max_bytes : (init 0).max_bytes ≡ 0
    init-max_bytes = unfold init in refl

    init-empty : live at (lookup k (init 0).entries) ≡ none
    init-empty = unfold init lookup in refl
