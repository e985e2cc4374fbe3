-- ===== src/Tests/Store.antt =====
-- Examples for the store, the wire format, the fanout and the cache of seen messages.
use repram.Common.{ℕ, ◌+◌, ◌≡◌, refl, true, some, List, [], ◌∷◌, js, arith, str_discrete}
use repram.Common.JsMap.{lookup, has, insert, size}
use repram.Wire.{NodeInfo}
use repram.Storage
use repram.Storage.{MemoryStore, cleanup_expired, exists, scan, passes, ok, data_of}
use repram.Storage.Accounting.{Step, Reach, Reach-IsValid}
use repram.Storage.Accounting
use repram.Storage.History.{Call, get-run}
use repram.Storage.History
use repram.Seen.{mark_seen, seen_message_ttl_ms, evict_seen}
use repram.Seen.Dedup.{mark_seen_overflow}
use repram.Seen.Window.{mark_seen-run}
use repram.Seen.Window
use repram.Tests.{alpha, beta}

abbrev two_writes : List (ℕ × Call)
two_writes =
    (0, Call.write (js "k") (1 ∷ []) 5)
    ∷ (100, Call.write (js "k") (2 ∷ 3 ∷ []) 5)
    ∷ (200, Call.cleanup)
    ∷ []

get-run_example :
    Storage.get 5099 (History.run two_writes (Storage.init 0)) (js "k") ≡ some (2 ∷ 3 ∷ [])
unfolding Storage.History.last_written str_discrete
get-run_example = get-run 5099 (js "k") two_writes (omega arith, (omega arith, (omega arith, tt)))

abbrev one_entry : MemoryStore
one_entry = record {
  entries = (js "k", Storage.new_entry 0 (1 ∷ []) 5) ∷ [];
  current_bytes = 1;
  max_bytes = 8;
  cleanup_timer = true;
}

one_entry-reached : Reach 8 one_entry
unfolding Storage.put Storage.init lookup insert
one_entry-reached = Reach.next Reach.start (Step.puts 0 (js "k") (1 ∷ []) 5 refl)

Reach-IsValid_example : Accounting.IsValid one_entry × (one_entry.max_bytes ≡ 8)
Reach-IsValid_example = Reach-IsValid 8 one_entry-reached

abbrev three_peers : List NodeInfo
three_peers = alpha ∷ beta ∷ beta ∷ []

abbrev other_marks : List (ℕ × Window.Event)
other_marks = (10, Window.marks (js "y")) ∷ (20, Window.cleans) ∷ []

mark_seen-run_example :
    (mark_seen 9 50000 (Window.run 9 other_marks (mark_seen 9 0 [] (js "x")).0) (js "x")).1 ≡ true
unfolding has
mark_seen-run_example =
    mark_seen-run 9 0 50000 [] (js "x") other_marks tt refl (omega arith)
      (omega arith, (omega arith, tt)) (omega arith)

mark_seen_overflow_example :
    (evict_seen 1 5 ((js "x", 60000) ∷ []) ≡ (js "x", 60000) ∷ [])
    × ((mark_seen 1 5 ((js "x", 60000) ∷ []) (js "y")).0
        ≡ insert (js "y") (5 + seen_message_ttl_ms) ((js "x", 60000) ∷ []))
    × (size (mark_seen 1 5 ((js "x", 60000) ∷ []) (js "y")).0 ≡ 2)
unfolding has str_discrete
mark_seen_overflow_example =
    mark_seen_overflow 1 5 60000 ((js "x", 60000) ∷ []) (js "y") (omega arith) (omega arith)
      (omega arith) (refl, tt) refl
