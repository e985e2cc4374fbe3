-- ===== src/Client/Tools.antt =====
-- repram-mcp/src/tools.ts: `handleToolCall` on any client, and on the one in process. The arguments
-- that a tool requires are there, which the MCP library checks; a UUID is an argument.
use repram.Common.{
  ℕ, ◌+◌, ◌*◌, not, ◌&&◌, Option, none, some, List, ◌++◌, Str, js, decimal, nat_eq, if◌then◌else◌,
}
use repram.Wire.{or_default}
use repram.Cluster.{ClusterNode, WriteStatus}
use repram.Client.{
  Reply, value, thrown, StoreResult, RetrieveResult, ExistsResult, RepramClientInterface, Utf8,
  local_store, local_store_result, local_retrieve, local_exists, local_list_keys,
}

-- The tools with their arguments, and any other name.
pub data ToolCall : Type 0 where
  repram_store : Str → Option ℕ → Option Str → ToolCall
  repram_retrieve repram_exists : Str → ToolCall
  repram_list_keys : Option Str → ToolCall
  unknown_tool : Str → ToolCall

-- The objects that the tools return; a date is its milliseconds.
pub data ToolResult : Type 0 where
  stored : Str → ℕ → ℕ → ToolResult
  store_failed : Str → ToolResult
  not_found : ToolResult
  retrieved : Str → Option ℕ → ℕ → ℕ → ToolResult
  absent : ToolResult
  present : ℕ → ℕ → ToolResult
  listed : List Str → ToolResult
  raised : ToolResult

unfoldable pub store_result : ℕ → Str → ℕ → StoreResult → ToolResult
store_result now key ttl_seconds r =
    if not (nat_eq r.status 201) && not (nat_eq r.status 202)
    then store_failed
        (js "Store failed with status " ++ (decimal r.status ++ (js ": " ++ r.status_text)))
    else stored key ttl_seconds (now + ttl_seconds * 1000)

-- A date that is not a number cannot be printed.
unfoldable pub retrieve_result : ℕ → Option RetrieveResult → ToolResult
retrieve_result now none = not_found
retrieve_result now (some r) = elim r.remaining_ttl_seconds [
  | none ↦ raised
  | some remaining ↦ retrieved r.data_text r.created_at remaining (now + remaining * 1000)
]

unfoldable pub exists_result : ℕ → ExistsResult → ToolResult
exists_result now r =
    if r.present
    then elim r.remaining_ttl_seconds [
      | none ↦ raised
      | some remaining ↦ present remaining (now + remaining * 1000)
    ]
    else absent

-- The handler goes on with the value of a promise, and passes its error on.
abbrev after {ℓ} : {A : Type ℓ} → (A → ToolResult) → Reply A → ToolResult
after f (value a) = f a
after f thrown = raised

-- The clock is what `Date.now()` gives once the promise of the client's call has settled.
unfoldable pub handle_tool_call : RepramClientInterface → ℕ → Str → ToolCall → ToolResult
unfolding store_result retrieve_result exists_result
handle_tool_call client now uuid (repram_store text ttl key) =
    let ttl_seconds = or_default 3600 ttl in
    let chosen = or_default uuid key in
    after (store_result now chosen ttl_seconds) (client.store chosen text ttl_seconds)
handle_tool_call client now uuid (repram_retrieve key) =
    after (retrieve_result now) (client.retrieve key)
handle_tool_call client now uuid (repram_exists key) = after (exists_result now) (client.exists key)
handle_tool_call client now uuid (repram_list_keys prefix) = after listed (client.list_keys prefix)
handle_tool_call client now uuid (unknown_tool name) = raised

-- The client in process of a node: `now` is the clock when a call starts, which the store uses. A write
-- settles with the given status, later than that if it waits for ACKs.
unfoldable pub in_process_client :
    Utf8 → (ℕ → ℕ) → ℕ → ℕ → ℕ → ClusterNode → WriteStatus → RepramClientInterface
in_process_client utf8 draw max_seen now caller n status = record {
  store = λ key text ttl.
      if (local_store utf8 draw max_seen now caller n key text ttl).threw
      then thrown
      else value (local_store_result utf8 status);
  retrieve = λ key. value (local_retrieve utf8 now n key);
  exists = λ key. value (local_exists now n key);
  list_keys = λ prefix. value (local_list_keys now n prefix);
}
