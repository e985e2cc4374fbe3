-- ===== src/Seen/Window.antt =====
-- repram-mcp/src/node/gossip.ts: the dedup cache through a series of messages and cleanups.
use repram.Common.{
  ℕ, suc, ◌+◌, ◌≤◌, ◌<◌, ◌≡◌, inl, inr, true, false, some, List, [], ◌∷◌, Str, arith, leb,
  Bool-cases, length,
}
use repram.Common.JsMap.{
  IsMap, has, lookup, size, lookup-insert, lookup-retain, has-lookup, retain-IsMap, insert-IsMap,
  length-insert-le, length-retain-le, lookup-insert_self,
}
use repram.Seen.{SeenMessages, seen_message_ttl_ms, fresh_at, cleanup_seen_messages, mark_seen}

pub data Event : Type 0 where
  marks : Str → Event
  cleans : Event

unfoldable pub step : ℕ → ℕ × Event → SeenMessages → SeenMessages
step max_seen (now, marks id) seen = (mark_seen max_seen now seen id).0
step max_seen (now, cleans) seen = cleanup_seen_messages now seen

unfoldable pub run : ℕ → List (ℕ × Event) → SeenMessages → SeenMessages
unfolding step
run max_seen [] seen = seen
run max_seen (e ∷ es) seen = run max_seen es (step max_seen e seen)

-- Every event happened by the time given.
abbrev pub AllBefore : List (ℕ × Event) → ℕ → Type 0
AllBefore [] at = Unit
AllBefore ((now, e) ∷ es) at = (now ≤ at) × AllBefore es at

-- The cache holds the id until after the time given, and has room for so many more.
abbrev Holds : ℕ → ℕ → Str → ℕ → SeenMessages → Type 0
Holds max_seen at id room seen =
    IsMap seen × ((x : ℕ) × (lookup id seen ≡ some x) × (at < x)) × (size seen + room ≤ max_seen)

mark_seen-Holds :
    (max_seen at now : ℕ) (id j : Str) (room : ℕ) (seen : SeenMessages)
    → Holds max_seen at id (suc room) seen
    → Holds max_seen at id room (mark_seen max_seen now seen j).0
unfolding mark_seen
mark_seen-Holds max_seen at now id j room seen (m, (x, held, alive), fits) =
    elim (Bool-cases (has j seen)) [
      | inl old ↦ rw old (m, (x, held, alive), omega arith)
      | inr new ↦
          let absent = has-lookup j seen new in
          let v = now + seen_message_ttl_ms in
          let below : leb max_seen (size seen) ≡ false = ground arith in
          rw (new, below)
            (
              insert-IsMap j v seen m,
              (x, ground (arith, lookup-insert j id v seen), alive),
              omega (arith, length-insert-le j v seen),
            )
    ]

cleanup_seen_messages-Holds :
    (max_seen at now : ℕ) (id : Str) (room : ℕ) (seen : SeenMessages)
    → now ≤ at
    → Holds max_seen at id (suc room) seen
    → Holds max_seen at id room (cleanup_seen_messages now seen)
unfolding cleanup_seen_messages
cleanup_seen_messages-Holds max_seen at now id room seen h (m, (x, held, alive), fits) = (
  retain-IsMap (fresh_at now) seen m,
  (x, ground (arith, lookup-retain (fresh_at now) id seen m), alive),
  omega (arith, length-retain-le (fresh_at now) seen),
)

run-Holds :
    (max_seen at : ℕ) (id : Str) (es : List (ℕ × Event)) (seen : SeenMessages)
    → AllBefore es at
    → Holds max_seen at id (length es) seen
    → Holds max_seen at id 0 (run max_seen es seen)
unfolding run
run-Holds max_seen at id [] seen h s = s
run-Holds max_seen at id ((now, marks j) ∷ es) seen h s =
    run-Holds max_seen at id es _ h.1 (mark_seen-Holds max_seen at now id j (length es) seen s)
run-Holds max_seen at id ((now, cleans) ∷ es) seen h s =
    run-Holds max_seen at id es _ h.1
      (cleanup_seen_messages-Holds max_seen at now id (length es) seen h.0 s)

mark_seen_new-Holds :
    (max_seen at now room : ℕ) (id : Str) (seen : SeenMessages)
    → IsMap seen
    → has id seen ≡ false
    → size seen + 1 + room ≤ max_seen
    → at < now + seen_message_ttl_ms
    → Holds max_seen at id room (mark_seen max_seen now seen id).0
unfolding mark_seen
mark_seen_new-Holds max_seen at now room id seen m new fits young =
    let v = now + seen_message_ttl_ms in
    let below : leb max_seen (size seen) ≡ false = ground arith in
    rw (new, below)
      (
        insert-IsMap id v seen m,
        (v, lookup-insert_self id v seen, young),
        omega (arith, length-insert-le id v seen),
      )

mark_seen-has :
    (max_seen now : ℕ) (id : Str) (seen : SeenMessages)
    → has id seen ≡ true
    → mark_seen max_seen now seen id ≡ (seen, true)
unfolding mark_seen
mark_seen-has max_seen now id seen h = rw h

has_of_lookup :
    (id : Str) (seen : SeenMessages) (x : ℕ) → lookup id seen ≡ some x → has id seen ≡ true
has_of_lookup id seen x h = elim (Bool-cases (has id seen)) [
  | inl there ↦ there
  | inr new ↦ absurd (ground (arith, has-lookup id seen new))
]

pub has-run :
    (max_seen now at : ℕ) (seen : SeenMessages) (id : Str) (es : List (ℕ × Event))
    → IsMap seen
    → has id seen ≡ false
    → size seen + 1 + length es ≤ max_seen
    → AllBefore es at
    → at < now + seen_message_ttl_ms
    → has id (run max_seen es (mark_seen max_seen now seen id).0) ≡ true
has-run max_seen now at seen id es m new fits before young =
    let start = mark_seen_new-Holds max_seen at now (length es) id seen m new fits young in
    let (_, (x, held, _), _) = run-Holds max_seen at id es _ before start in
    has_of_lookup id _ x held

-- A message id that was new at one time is a duplicate at every later time within the TTL, whatever
-- other ids are marked and whatever cleanups run in between, as long as the cache cannot reach its
-- capacity.
pub mark_seen-run :
    (max_seen now at : ℕ) (seen : SeenMessages) (id : Str) (es : List (ℕ × Event))
    → IsMap seen
    → has id seen ≡ false
    → size seen + 1 + length es ≤ max_seen
    → AllBefore es at
    → at < now + seen_message_ttl_ms
    → (mark_seen max_seen at (run max_seen es (mark_seen max_seen now seen id).0) id).1 ≡ true
mark_seen-run max_seen now at seen id es m new fits before young =
    rw (mark_seen-has max_seen at id _ (has-run max_seen now at seen id es m new fits before young))
