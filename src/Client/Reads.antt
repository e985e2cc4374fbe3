-- ===== src/Client/Reads.antt =====
-- repram-mcp/src/client.ts: the reads of the two clients on one node.
use repram.Common.{
  ℕ, ◌-◌, ◌/◌, ◌≡◌, refl, Option, none, some, List, [], ◌∷◌, Str, decimal, leb, arith, Bool-cases,
  Option-cases, inl, inr,
}
use repram.Common.JsMap.{JsMap, lookup}
use repram.Storage
use repram.Storage.{Entry, MemoryStore, passes, scan_entries}
use repram.Cluster.{ClusterNode}
use repram.Server.Puts.{get_handler}
use repram.Server.Keys.{sort, keys_handler, after_cursor, cut}
use repram.Client.{
  Utf8, value, to_http, http_retrieve, http_exists, local_retrieve, local_exists, local_list_keys,
  prefix_parameter, http_list_keys, Reply, thrown,
}

http_retrieve-local :
    (utf8 : Utf8) (parse_int : Str → Option ℕ) (now : ℕ) (n : ClusterNode) (key : Str)
    → ((k : ℕ) → parse_int (decimal k) ≡ some k)
    → ((e : Entry)
        → Storage.get_with_metadata now n.store key ≡ some e
        → utf8.decode_response e.data_bytes ≡ utf8.decode e.data_bytes)
    → http_retrieve utf8 parse_int (to_http (get_handler now n key))
      ≡ value (local_retrieve utf8 now n key)
unfolding http_retrieve local_retrieve get_handler
http_retrieve-local utf8 parse_int now n key reads plain =
    elim (Option-cases (Storage.get_with_metadata now n.store key)) [
      | inl gone ↦ rw (gone, http_retrieve, local_retrieve, get_handler) refl
      | inr (entry, found) ↦
          rw
            (
              found,
              http_retrieve,
              local_retrieve,
              get_handler,
              plain entry found,
              reads ((entry.expires_at - now) / 1000),
              reads entry.ttl_seconds,
            )
            refl
    ]

http_exists-local :
    (parse_int : Str → Option ℕ) (now : ℕ) (n : ClusterNode) (key : Str)
    → ((k : ℕ) → parse_int (decimal k) ≡ some k)
    → http_exists parse_int (to_http (get_handler now n key)) ≡ value (local_exists now n key)
unfolding http_exists local_exists get_handler Storage.get_with_metadata Storage.exists
http_exists-local parse_int now n key reads = elim (Option-cases (lookup key n.store.entries)) [
  | inl missing ↦ rw (missing, http_exists, local_exists, get_handler) refl
  | inr (entry, found) ↦ elim (Bool-cases (leb entry.expires_at now)) [
    | inl over ↦ rw (found, over, http_exists, local_exists, get_handler) refl
    | inr live ↦
        rw
          (
            found,
            live,
            http_exists,
            local_exists,
            get_handler,
            reads ((entry.expires_at - now) / 1000),
          )
          refl
  ]
]

passes-parameter :
    (prefix : Option Str) (key : Str) → passes (prefix_parameter prefix) key ≡ passes prefix key
unfolding prefix_parameter
passes-parameter none key = refl
passes-parameter (some prefix) key = ground arith

scan_entries-parameter :
    (now : ℕ) (prefix : Option Str) (entries : JsMap Entry)
    → scan_entries now (prefix_parameter prefix) entries ≡ scan_entries now prefix entries
unfolding scan_entries
scan_entries-parameter now prefix [] = refl
scan_entries-parameter now prefix ((key, e) ∷ rest) =
    rw (scan_entries-parameter now prefix rest, passes-parameter prefix key) refl

keys_handler-all :
    (scanned : List Str)
    → keys_handler scanned none none ≡ some (record { keys = sort scanned; next_cursor = none })
unfolding keys_handler after_cursor cut
keys_handler-all scanned = refl

-- The list of the HTTP client: the handler gets the prefix, no cursor and no limit, and answers with 200
-- and the keys of its page.
unfoldable pub list_over_http : ℕ → ClusterNode → Option Str → Reply (List Str)
list_over_http now n prefix =
    elim (keys_handler (Storage.scan now n.store (prefix_parameter prefix)) none none) [
      | none ↦ thrown
      | some page ↦ http_list_keys 200 (some page.keys)
    ]

-- The two clients read the same from a node at one time: the HTTP client makes of the responses of
-- the GET and HEAD handlers what the in-process client gets of the store, for a present, a missing
-- and an expired key, and of the
-- response of the key listing the keys that the in-process client lists, sorted. Numbers are read back from
-- the headers, and a stored text is read alike as a buffer and as a response, which is so unless it
-- starts with a byte order mark.
pub http_reads-local :
    (utf8 : Utf8) (parse_int : Str → Option ℕ) (now : ℕ) (n : ClusterNode) (key : Str)
    (prefix : Option Str)
    → ((k : ℕ) → parse_int (decimal k) ≡ some k)
    → ((e : Entry)
        → Storage.get_with_metadata now n.store key ≡ some e
        → utf8.decode_response e.data_bytes ≡ utf8.decode e.data_bytes)
    → let response = to_http (get_handler now n key) in
      (http_retrieve utf8 parse_int response ≡ value (local_retrieve utf8 now n key))
      × (http_exists parse_int response ≡ value (local_exists now n key))
      × (list_over_http now n prefix ≡ value (sort (local_list_keys now n prefix)))
unfolding local_list_keys list_over_http http_list_keys Storage.scan
http_reads-local utf8 parse_int now n key prefix reads plain =
    let scanned = scan_entries-parameter now prefix n.store.entries in
    (
      http_retrieve-local utf8 parse_int now n key reads plain,
      http_exists-local parse_int now n key reads,
      ground (arith, scanned, keys_handler-all (scan_entries now prefix n.store.entries)),
    )
