-- ===== src/Seen/Dedup.antt =====
-- repram-mcp/src/node/gossip.ts: what the dedup cache remembers, and for how long.
use repram.Common.{
  ℕ, ◌+◌, ◌≤◌, ◌<◌, ◌≡◌, refl, ap, inl, inr, Bool, true, false, not, [], ◌∷◌, Str, eq_refl, arith,
  le→leb, ◌∙◌, length-append, leb, if◌then◌else◌, Bool-cases,
}
use repram.Common.JsMap.{
  IsMap, Each, has, lookup, insert, retain, size, has-insert, lookup-retain, has-lookup, keep_if,
  insert_new,
}
use repram.Seen.{
  SeenMessages, seen_message_ttl_ms, fresh_at, cleanup_seen_messages, earliest_expiry,
  latest_expiry, older_half, drop_oldest_half, evict_seen, mark_seen,
}

-- The answer says whether the id was in the cache; afterwards it is, so the same id asked about
-- next is a duplicate and changes nothing.
pub mark_seen_twice :
    (max_seen now later : ℕ) (seen : SeenMessages) (id : Str)
    → let seen' = (mark_seen max_seen now seen id).0 in
      ((mark_seen max_seen now seen id).1 ≡ has id seen)
      × (mark_seen max_seen later seen' id ≡ (seen', true))
unfolding mark_seen
mark_seen_twice max_seen now later seen id = elim (Bool-cases (has id seen)) [
  | inl old ↦ rw (old, mark_seen) (refl, rw old)
  | inr new ↦
      let kept = if leb max_seen (size seen) then evict_seen max_seen now seen else seen in
      rw (new, mark_seen) (refl, rw (has-insert id id (now + seen_message_ttl_ms) kept, eq_refl id))
]

-- The timed cleanup forgets an id exactly when its time is over.
pub has-cleanup_seen_messages :
    (now : ℕ) (seen : SeenMessages) (id : Str)
    → IsMap seen
    → lookup id (cleanup_seen_messages now seen) ≡ keep_if (fresh_at now) id (lookup id seen)
unfolding cleanup_seen_messages
has-cleanup_seen_messages now seen id m = lookup-retain (fresh_at now) id seen m

-- Every entry has the same expiry, as after a burst within one millisecond.
abbrev pub AllExpireAt : ℕ → SeenMessages → Type 0
AllExpireAt t = Each (λ id expiry. expiry ≡ t)

earliest_expiry-le : (e : ℕ) (seen : SeenMessages) → earliest_expiry e seen ≤ e
unfolding earliest_expiry
earliest_expiry-le e [] = omega arith
earliest_expiry-le e ((id, x) ∷ seen) =
    ground (arith, earliest_expiry-le x seen, earliest_expiry-le e seen)

latest_expiry-le :
    (t l : ℕ) (seen : SeenMessages) → AllExpireAt t seen → l ≤ t → latest_expiry l seen ≤ t
unfolding latest_expiry
latest_expiry-le t l [] h le = le
latest_expiry-le t l ((id, x) ∷ seen) h le =
    ground (arith, latest_expiry-le t x seen h.1, latest_expiry-le t l seen h.1)

retain-all :
    (p : Str → ℕ → Bool) (seen : SeenMessages)
    → Each (λ id expiry. p id expiry ≡ true) seen
    → retain p seen ≡ seen
unfolding retain
retain-all p [] h = refl
retain-all p ((id, x) ∷ seen) h = ground (arith, retain-all p seen h.1)

not-older :
    (t e l : ℕ) (seen : SeenMessages)
    → e + l ≤ t + t
    → AllExpireAt t seen
    → Each (λ id expiry. not (older_half e l id expiry) ≡ true) seen
not-older t e l [] b h = tt
not-older t e l ((id, x) ∷ seen) b h = (ground arith, not-older t e l seen b h.1)

all-fresh :
    (now t : ℕ) (seen : SeenMessages)
    → now < t
    → AllExpireAt t seen
    → Each (λ id expiry. fresh_at now id expiry ≡ true) seen
all-fresh now t [] b h = tt
all-fresh now t ((id, x) ∷ seen) b h = (ground arith, all-fresh now t seen b h.1)

bounds_sum :
    (now t : ℕ) (seen : SeenMessages)
    → 0 < size seen
    → AllExpireAt t seen
    → earliest_expiry (now + seen_message_ttl_ms) seen + latest_expiry 0 seen ≤ t + t
unfolding earliest_expiry
bounds_sum now t [] p h = absurd (omega arith)
bounds_sum now t ((id, x) ∷ seen) p h = ground (
  arith,
  latest_expiry-le t 0 ((id, x) ∷ seen) h,
  earliest_expiry-le x seen,
  earliest_expiry-le (now + seen_message_ttl_ms) seen,
)

evict_seen_uniform :
    (max_seen now t : ℕ) (seen : SeenMessages)
    → 0 < max_seen
    → max_seen ≤ size seen
    → now < t
    → AllExpireAt t seen
    → evict_seen max_seen now seen ≡ seen
unfolding evict_seen drop_oldest_half
evict_seen_uniform max_seen now t seen p full alive same =
    let bounds = bounds_sum now t seen (omega arith) same in
    rw (retain-all (fresh_at now) seen (all-fresh now t seen alive same), le→leb max_seen _ full)
      (retain-all _ seen (not-older t _ _ seen bounds same))

mark_seen_full :
    (max_seen now : ℕ) (seen : SeenMessages) (id : Str)
    → max_seen ≤ size seen
    → has id seen ≡ false
    → (mark_seen max_seen now seen id).0
      ≡ insert id (now + seen_message_ttl_ms) (evict_seen max_seen now seen)
unfolding mark_seen
mark_seen_full max_seen now seen id full new = rw (new, le→leb max_seen _ full)

size-insert_new :
    (id : Str) (x : ℕ) (seen : SeenMessages)
    → has id seen ≡ false
    → size (insert id x seen) ≡ size seen + 1
size-insert_new id x seen new =
    rw (insert_new id x seen (has-lookup id seen new)) (length-append {0} seen ((id, x) ∷ []))

-- The capacity is not a bound. When the cache is full of ids that expire together, later than now,
-- the eviction drops none of them, and the cache grows beyond its capacity by the new id.
pub mark_seen_overflow :
    (max_seen now t : ℕ) (seen : SeenMessages) (id : Str)
    → 0 < max_seen
    → max_seen ≤ size seen
    → now < t
    → AllExpireAt t seen
    → has id seen ≡ false
    → (evict_seen max_seen now seen ≡ seen)
      × ((mark_seen max_seen now seen id).0 ≡ insert id (now + seen_message_ttl_ms) seen)
      × (size (mark_seen max_seen now seen id).0 ≡ size seen + 1)
mark_seen_overflow max_seen now t seen id p full alive same new =
    let kept = evict_seen_uniform max_seen now t seen p full alive same in
    let grown = mark_seen_full max_seen now seen id full new ∙ rw kept in
    (kept, grown, ap size grown ∙ size-insert_new id (now + seen_message_ttl_ms) seen new)

-- After the call the id is in the cache.
pub has-mark_seen :
    (max_seen now : ℕ) (seen : SeenMessages) (id : Str)
    → has id (mark_seen max_seen now seen id).0 ≡ true
unfolding mark_seen
has-mark_seen max_seen now seen id =
    let kept = if leb max_seen (size seen) then evict_seen max_seen now seen else seen in
    ground (arith, has-insert id id (now + seen_message_ttl_ms) kept)
