-- ===== src/Server/Config.antt =====
-- repram-mcp/src/node/server.ts: `loadConfig`. The environment is a function, and `parseInt`, the
-- lower case and the clock are arguments; variables with negative numbers are left out.
use repram.Common.{
  ℕ, ◌*◌, Bool, Option, none, some, [], Str, ◌==◌, ◌++◌, js, truthy, decimal, default_enclave,
  if◌then◌else◌,
}
use repram.Wire.{or_default}

pub record ServerConfig : Type 0 where
  pub http_port : ℕ
  pub gossip_port : ℕ
  pub address : Str
  pub node_id : Str
  pub network : Str
  pub enclave : Str
  pub replication_factor : ℕ
  pub min_ttl : ℕ
  pub max_ttl : ℕ
  pub write_timeout_ms : ℕ
  pub cluster_secret : Str
  pub rate_limit : ℕ
  pub trust_proxy : Bool
  pub max_storage_bytes : ℕ
  pub log_level : Str
  pub inbound : Str
  pub max_children : ℕ

module _ (env : Str → Option Str) (parse_int : Str → Option ℕ) where
  -- A variable that is missing, empty or no number gives the default.
  unfoldable pub env_int : Str → ℕ → ℕ
  env_int key default_val = elim (env key) [
    | none ↦ default_val
    | some text ↦ if truthy text then or_default default_val (parse_int text) else default_val
  ]

  abbrev pub env_str : Str → Str → Str
  env_str key default_val = or_default default_val (env key)

  unfoldable pub load_config : (Str → Str) → ℕ → Bool → ServerConfig
  unfolding env_int
  load_config to_lower_case now embedded = record {
    http_port = env_int (js "REPRAM_HTTP_PORT") (if embedded then 0 else 8080);
    gossip_port = env_int (js "REPRAM_GOSSIP_PORT") (if embedded then 0 else 9090);
    address = env_str (js "REPRAM_ADDRESS") (js "localhost");
    node_id = env_str (js "REPRAM_NODE_ID") (js "node-" ++ decimal now);
    network = env_str (js "REPRAM_NETWORK") (js "public");
    enclave = env_str (js "REPRAM_ENCLAVE") default_enclave;
    replication_factor = env_int (js "REPRAM_REPLICATION") 3;
    min_ttl = env_int (js "REPRAM_MIN_TTL") 300;
    max_ttl = env_int (js "REPRAM_MAX_TTL") 86400;
    write_timeout_ms = env_int (js "REPRAM_WRITE_TIMEOUT") 5 * 1000;
    cluster_secret = env_str (js "REPRAM_CLUSTER_SECRET") [];
    rate_limit = env_int (js "REPRAM_RATE_LIMIT") 100;
    trust_proxy = to_lower_case (env_str (js "REPRAM_TRUST_PROXY") []) == js "true";
    max_storage_bytes =
        env_int (js "REPRAM_MAX_STORAGE_MB") (if embedded then 50 else 0) * 1024 * 1024;
    log_level = env_str (js "REPRAM_LOG_LEVEL") (if embedded then js "warn" else js "info");
    inbound = env_str (js "REPRAM_INBOUND") (js "false");
    max_children = env_int (js "REPRAM_MAX_CHILDREN") 100;
  }
