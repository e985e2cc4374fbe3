-- ===== src/Client/Ttl.antt =====
-- repram-mcp/src/client.ts and node/server.ts: the TTL that a stored value gets from the two clients.
use repram.Common.{
  ℕ, ◌+◌, ◌*◌, ◌-◌, ◌/◌, ◌≡◌, refl, ◌∙◌, ap, true, false, Option, none, some, Str, ltb, leb,
  if◌then◌else◌, arith, Bool-cases, inl, inr,
}
use repram.Common.JsMap.{lookup, lookup-insert_self}
use repram.Storage
use repram.Storage.{Buffer, MemoryStore, Entry, new_entry, ok}
use repram.Storage.Accounting.{put-ok}
use repram.Cluster.{ClusterNode}
use repram.Client.{Utf8, RetrieveResult, local_retrieve}

abbrev pub original_of : Option RetrieveResult → Option ℕ
original_of none = none
original_of (some r) = r.original_ttl_seconds

-- What a read finds of a value that was put under the key.
pub local_retrieve-put :
    (utf8 : Utf8) (now at : ℕ) (before : MemoryStore) (n : ClusterNode) (key : Str)
    (content : Buffer) (ttl : ℕ)
    → Storage.put now before key content ttl ≡ ok n.store
    → local_retrieve utf8 at n key ≡ (
        if ltb at (now + ttl * 1000)
        then some (record {
          data_text = utf8.decode content;
          created_at = some now;
          remaining_ttl_seconds = some ((now + ttl * 1000 - at) / 1000);
          original_ttl_seconds = some ttl;
        })
        else none)
unfolding local_retrieve Storage.get_with_metadata
local_retrieve-put utf8 now at before n key content ttl e =
    let entry = new_entry now content ttl in
    let held = (put-ok now before key content ttl e).0 in
    let found : lookup key n.store.entries ≡ some entry =
      ap (lookup key) held ∙ lookup-insert_self key entry before.entries in
    elim (Bool-cases (ltb at (now + ttl * 1000))) [
      | inl live ↦
          let young : leb (now + ttl * 1000) at ≡ false = ground arith in
          rw (found, local_retrieve, young, live) refl
      | inr over ↦
          let old : leb (now + ttl * 1000) at ≡ true = ground arith in
          rw (found, local_retrieve, old, over) refl
    ]
