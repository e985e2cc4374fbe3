-- ===== src/Client.antt =====
-- repram-mcp/src/client.ts: the clients of a node, in process and over HTTP. A date is its
-- milliseconds; the coding of text as UTF-8, `parseInt` and `fetch` are parameters.
use repram.Common.{
  ℕ, ◌-◌, ◌/◌, ◌≡◌, Bool, true, false, ◌&&◌, Option, none, some, List, [], Str, js, truthy, decimal,
  ltb, leb, nat_eq, if◌then◌else◌,
}
use repram.Wire.{or_default}
use repram.Storage
use repram.Storage.{Buffer, Entry, Existence}
use repram.Cluster.{ClusterNode, Outcome, WriteStatus, created, accepted, write}
use repram.Server.Puts.{GetResponse, write_status}
use repram.Server.Keys.{Page}
pub mod Reads
pub mod Ttl
pub mod Tools

pub record StoreResult : Type 0 where
  pub status : ℕ
  pub status_text : Str

-- A number that was read from a header is none for NaN, and a missing date is none.
pub record RetrieveResult : Type 0 where
  pub data_text : Str
  pub created_at : Option ℕ
  pub remaining_ttl_seconds : Option ℕ
  pub original_ttl_seconds : Option ℕ

pub record ExistsResult : Type 0 where
  pub present : Bool
  pub remaining_ttl_seconds : Option ℕ

-- What the promise of a call comes to: a value, or an error.
pub data Reply {ℓ} (A : Type ℓ) : Type ℓ where
  value : A → Reply A
  thrown : Reply A

-- `RepramClientInterface`: each operation as what its promise comes to.
pub record RepramClientInterface : Type 0 where
  pub store : Str → Str → ℕ → Reply StoreResult
  pub retrieve : Str → Reply (Option RetrieveResult)
  pub exists : Str → Reply ExistsResult
  pub list_keys : Option Str → Reply (List Str)

-- `Buffer.from(s)`, `buffer.toString()` and `response.text()`; the last drops a byte order mark.
pub record Utf8 : Type 0 where
  pub encode : Str → Buffer
  pub decode : Buffer → Str
  pub decode_response : Buffer → Str

module _ (utf8 : Utf8) where
  -- `InProcessClient`: the write that `store` starts, and its result once the write settles.
  unfoldable pub local_store : (ℕ → ℕ) → ℕ → ℕ → ℕ → ClusterNode → Str → Str → ℕ → Outcome
  local_store draw max_seen now caller n key text ttl_seconds =
      write draw max_seen now caller n key (utf8.encode text) ttl_seconds

  unfoldable pub local_store_result : WriteStatus → StoreResult
  local_store_result created = record { status = 201; status_text = js "Created" }
  local_store_result accepted = record { status = 202; status_text = js "Accepted" }

  unfoldable pub local_retrieve : ℕ → ClusterNode → Str → Option RetrieveResult
  local_retrieve now n key = elim (Storage.get_with_metadata now n.store key) [
    | none ↦ none
    | some entry ↦ some (record {
      data_text = utf8.decode entry.data_bytes;
      created_at = some entry.created_at;
      remaining_ttl_seconds = some ((entry.expires_at - now) / 1000);
      original_ttl_seconds = some entry.ttl_seconds;
    })
  ]

unfoldable pub local_exists : ℕ → ClusterNode → Str → ExistsResult
local_exists now n key =
    let e = Storage.exists now n.store key in
    record { present = e.present; remaining_ttl_seconds = some e.remaining_ttl_seconds }

unfoldable pub local_list_keys : ℕ → ClusterNode → Option Str → List Str
local_list_keys now n prefix = Storage.scan now n.store prefix

-- A response as `fetch` hands it over: its status, the headers that the client reads, and the bytes.
pub record HttpResponse : Type 0 where
  pub status : ℕ
  pub created_at : Option ℕ
  pub original_ttl : Option Str
  pub remaining_ttl : Option Str
  pub content : Buffer

abbrev pub header_of : Option ℕ → Option Str
header_of none = none
header_of (some n) = some (decimal n)

-- The response of the data handler on the wire, with `String(n)` in the headers.
abbrev pub to_http : GetResponse → HttpResponse
to_http r = record {
  status = r.status;
  created_at = r.created_at;
  original_ttl = header_of r.original_ttl;
  remaining_ttl = header_of r.remaining_ttl;
  content = r.content;
}

-- `response.ok`
abbrev pub is_ok : ℕ → Bool
is_ok status = leb 200 status && leb status 299

-- `parseInt(header ?? "0", 10)`
abbrev pub header_number : (Str → Option ℕ) → Option Str → Option ℕ
header_number parse_int h = parse_int (or_default (js "0") h)

-- `RepramClient`: what it makes of the responses.
unfoldable pub http_retrieve :
    Utf8 → (Str → Option ℕ) → HttpResponse → Reply (Option RetrieveResult)
http_retrieve utf8 parse_int r =
    if nat_eq r.status 404
    then value none
    else if is_ok r.status
    then value (
        some (record {
          data_text = utf8.decode_response r.content;
          created_at = r.created_at;
          remaining_ttl_seconds = header_number parse_int r.remaining_ttl;
          original_ttl_seconds = header_number parse_int r.original_ttl;
        }))
    else thrown

unfoldable pub http_exists : (Str → Option ℕ) → HttpResponse → Reply ExistsResult
http_exists parse_int r =
    if nat_eq r.status 404
    then value (record { present = false; remaining_ttl_seconds = some 0 })
    else if is_ok r.status
    then value
        (record { present = true; remaining_ttl_seconds = header_number parse_int r.remaining_ttl })
    else thrown

-- The headers and the body of the PUT, and the result from its response.
pub record StoreRequest : Type 0 where
  pub ttl_header : Str
  pub content : Buffer

unfoldable pub http_store_request : Utf8 → Str → ℕ → StoreRequest
http_store_request utf8 text ttl_seconds = record {
  ttl_header = decimal ttl_seconds;
  content = utf8.encode text;
}

unfoldable pub http_store_result : ℕ → Str → StoreResult
http_store_result status status_text = record { status = status; status_text = status_text }

-- The query parameter of the prefix; an empty prefix is left out.
unfoldable pub prefix_parameter : Option Str → Option Str
prefix_parameter none = none
prefix_parameter (some prefix) = if truthy prefix then some prefix else none

-- `body.keys ?? []` of a response.
unfoldable pub http_list_keys : ℕ → Option (List Str) → Reply (List Str)
http_list_keys status keys = if is_ok status then value (or_default [] keys) else thrown
