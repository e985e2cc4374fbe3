-- ===== src/Storage/Accounting.antt =====
-- repram-mcp/src/node/storage.ts: the byte counter, the capacity, and what a sweep leaves.
use repram.Common.{
  ℕ, ◌+◌, ◌-◌, ◌*◌, ◌≤◌, ◌<◌, ◌≡◌, refl, ◌∙◌, ◌↔◌, ◌⊎◌, Bool, not, [], ◌∷◌, Str, arith, length,
}
use repram.Common.JsMap.{
  JsMap, IsMap, Each, lookup, insert, retain, total, total-insert, measure_at-le-total,
  insert-IsMap, retain-IsMap, Each-insert, Each-retain,
}
use repram.Storage.{
  MemoryStore, Entry, Buffer, ok, store_full, init, put, close, sweep, cleanup_expired, expired,
  entry_size, old_size, new_entry,
}

-- Every entry expires its TTL after its creation.
abbrev pub IsDated : Str → Entry → Type 0
IsDated key e = e.expires_at ≡ e.created_at + e.ttl_seconds * 1000

-- The counter is the number of bytes held, and within the capacity where there is one.
pub record IsValid (s : MemoryStore) : Type 0 where
  pub distinct : IsMap s.entries
  pub counted : s.current_bytes ≡ total entry_size s.entries
  pub bounded : (s.max_bytes ≡ 0) ⊎ (s.current_bytes ≤ s.max_bytes)
  pub dated : Each IsDated s.entries

abbrev pub lives : ℕ → Str → Entry → Bool
lives now key e = not (expired now e)

pub sweep-retain : (now bytes : ℕ) (m : JsMap Entry) → (sweep now bytes m).0 ≡ retain (lives now) m
unfolding sweep retain
sweep-retain now bytes [] = refl
sweep-retain now bytes ((k, e) ∷ m) =
    ground (arith, sweep-retain now bytes m, sweep-retain now (bytes - entry_size e) m)

sweep-total :
    (now bytes : ℕ) (m : JsMap Entry)
    → total entry_size m ≤ bytes
    → (sweep now bytes m).1 + total entry_size m ≡ bytes + total entry_size (retain (lives now) m)
unfolding sweep retain total
sweep-total now bytes [] h = omega arith
sweep-total now bytes ((k, e) ∷ m) h =
    ground (arith, sweep-total now bytes m, sweep-total now (bytes - entry_size e) m)

total-retain-le :
    (p : Str → Entry → Bool) (m : JsMap Entry) → total entry_size (retain p m) ≤ total entry_size m
unfolding retain total
total-retain-le p [] = omega arith
total-retain-le p ((k, e) ∷ m) = ground (arith, total-retain-le p m)

-- The cleanup keeps the entries that have not expired, and counts exactly their bytes.
pub cleanup_expired_lem :
    (now : ℕ) (s : MemoryStore)
    → IsValid s
    → (cleanup_expired now s).entries ≡ retain (lives now) s.entries
unfolding cleanup_expired
cleanup_expired_lem now s v = sweep-retain now s.current_bytes s.entries

pub cleanup_expired-IsValid :
    (now : ℕ) (s : MemoryStore) → IsValid s → IsValid (cleanup_expired now s)
unfolding cleanup_expired
cleanup_expired-IsValid now s v =
    let kept = sweep-retain now s.current_bytes s.entries in
    let swept = sweep-total now s.current_bytes s.entries (omega arith) in
    let fewer = total-retain-le (lives now) s.entries in
    record {
      distinct = rw kept (retain-IsMap (lives now) s.entries v.distinct);
      counted = rw kept (omega arith);
      bounded = omega arith;
      dated = rw kept (Each-retain IsDated (lives now) s.entries v.dated);
    }

-- What the store holds under the other keys, in bytes.
abbrev pub other_bytes : MemoryStore → Str → ℕ
other_bytes s key = total entry_size s.entries - old_size (lookup key s.entries)

-- A `put` that returns: the bytes still fit, and what it leaves.
pub put-ok :
    (now : ℕ) (s : MemoryStore) (key : Str) (data_bytes : Buffer) (ttl_seconds : ℕ)
    {s' : MemoryStore}
    → put now s key data_bytes ttl_seconds ≡ ok s'
    → (s'.entries ≡ insert key (new_entry now data_bytes ttl_seconds) s.entries)
      × (s'.max_bytes ≡ s.max_bytes)
      × (s'.current_bytes ≡ s.current_bytes - old_size (lookup key s.entries) + length data_bytes)
      × ((s.max_bytes ≡ 0) ⊎ (s'.current_bytes ≤ s.max_bytes))
unfolding put
put-ok now s key data_bytes ttl_seconds e = ground arith

pub put-IsValid :
    (now : ℕ) (s : MemoryStore) (key : Str) (data_bytes : Buffer) (ttl_seconds : ℕ)
    {s' : MemoryStore}
    → IsValid s
    → put now s key data_bytes ttl_seconds ≡ ok s'
    → IsValid s'
unfolding put
put-IsValid now s key data_bytes ttl_seconds {s'} v e =
    let (held, same_max, bytes, fits) = put-ok now s key data_bytes ttl_seconds e in
    let entry = new_entry now data_bytes ttl_seconds in
    let sum = total-insert entry_size key entry s.entries in
    let less = measure_at-le-total entry_size key s.entries in
    record {
      distinct = rw held (insert-IsMap key entry s.entries v.distinct);
      counted = rw held (omega arith);
      bounded = rw same_max fits;
      dated = rw held (Each-insert IsDated key entry s.entries refl v.dated);
    }

-- `put` throws exactly when there is a capacity and the other keys' bytes with the new ones exceed it.
pub put-store_full :
    (now : ℕ) (s : MemoryStore) (key : Str) (data_bytes : Buffer) (ttl_seconds : ℕ)
    → IsValid s
    → (put now s key data_bytes ttl_seconds ≡ store_full)
      ↔ ((0 < s.max_bytes) × (s.max_bytes < other_bytes s key + length data_bytes))
unfolding put
put-store_full now s key data_bytes ttl_seconds v =
    ground (arith, measure_at-le-total entry_size key s.entries)

pub init-IsValid : (max_bytes : ℕ) → IsValid (init max_bytes)
unfolding init total
init-IsValid max_bytes = record {
  distinct = tt;
  counted = refl;
  bounded = ground arith;
  dated = tt;
}

-- What happens to a store: writes that succeed, sweeps and the close.
pub data Step (s : MemoryStore) : MemoryStore → Type 0 where
  puts :
      (now : ℕ) (key : Str) (data_bytes : Buffer) (ttl_seconds : ℕ) {s' : MemoryStore}
      → put now s key data_bytes ttl_seconds ≡ ok s'
      → Step s s'
  sweeps : (now : ℕ) → Step s (cleanup_expired now s)
  closes : Step s (close s)

pub data Reach (max_bytes : ℕ) : MemoryStore → Type 0 where
  start : Reach max_bytes (init max_bytes)
  next : {s s' : MemoryStore} → Reach max_bytes s → Step s s' → Reach max_bytes s'

Step-IsValid :
    {s s' : MemoryStore} → Step s s' → IsValid s → IsValid s' × (s'.max_bytes ≡ s.max_bytes)
unfolding cleanup_expired close
Step-IsValid {s} (puts now key data_bytes ttl_seconds e) v = (
  put-IsValid now s key data_bytes ttl_seconds v e,
  (put-ok now s key data_bytes ttl_seconds e).1,
)
Step-IsValid {s} (sweeps now) v = (cleanup_expired-IsValid now s v, refl)
Step-IsValid (closes) v = (
  record { distinct = v.distinct; counted = v.counted; bounded = v.bounded; dated = v.dated },
  refl,
)

-- After any sequence of writes, sweeps and a close, from an empty store with a capacity: the
-- invariant holds, so the counter is the exact number of bytes held, and the capacity that it is
-- bounded by is the one that the store was made with.
pub Reach-IsValid :
    (max_bytes : ℕ) {s : MemoryStore} → Reach max_bytes s → IsValid s × (s.max_bytes ≡ max_bytes)
unfolding init
Reach-IsValid max_bytes start = (init-IsValid max_bytes, refl)
Reach-IsValid max_bytes (next r st) =
    let (v, e) = Reach-IsValid max_bytes r in let (v', e') = Step-IsValid st v in (v', e' ∙ e)
