-- ===== src/Tests.antt =====
-- The data of the examples: nodes, messages, and concrete functions for what the code takes from
-- JavaScript and Node.js.
use repram.Common.{
  ℕ, ◌+◌, ◌*◌, ◌/◌, ◌≤◌, ◌≡◌, ◌≢◌, refl, Bool, true, false, Option, none, some, List, [], ◌∷◌, ◌++◌,
  Str, js, default_enclave, arith, str_discrete,
}
use repram.Storage
use repram.Storage.{MemoryStore}
use repram.Wire.{NodeInfo, Message, MessageType, WireMessage, Base64, put, ack}
use repram.Auth.{Crypto}
use repram.RateLimit.{Floats}
use repram.Gossip.{Gossip}
use repram.Gossip.Invariant.{IsValid}
use repram.Tree.{Connection, Tree, substrate}
use repram.Cluster.{ClusterNode, WriteOperation}
use repram.Common.JsMap.{lookup}
mod Store
mod Writes
mod Mesh
mod Attached
mod Api
mod Codec
mod Numbers
mod Sockets
mod Joins
mod Replicas
mod Clients

abbrev pub node_at : Str → NodeInfo
node_at id = record {
  id = id;
  address = js "host";
  port = 9090;
  http_port = 8080;
  enclave = default_enclave;
}

abbrev pub alpha : NodeInfo
alpha = node_at (js "a")

abbrev pub beta : NodeInfo
beta = node_at (js "b")

abbrev pub message_from : NodeInfo → MessageType → Message
message_from sender type = record {
  type = type;
  from = sender.id;
  to = [];
  key = js "k";
  payload = 1 ∷ 2 ∷ [];
  ttl = 60;
  timestamp = 7000;
  message_id = js "m";
  node_info = none;
}

-- A node that knows one other.
abbrev pub gossip_of : NodeInfo → NodeInfo → Gossip
gossip_of local_node peer = record {
  local_node = local_node;
  replication_factor = 3;
  peers = (peer.id, peer) ∷ [];
  peer_failures = (peer.id, 2) ∷ [];
  seen_messages = [];
  has_transport = true;
  message_counter = 0;
}

abbrev pub alpha_gossip : Gossip
alpha_gossip = gossip_of alpha beta

abbrev pub beta_gossip : Gossip
beta_gossip = gossip_of beta alpha

pub alpha_gossip-IsValid : IsValid alpha_gossip
unfolding lookup str_discrete
alpha_gossip-IsValid = record { distinct = (refl, tt); keyed = ((refl, refl), tt); foreign = refl }

pub beta_gossip-IsValid : IsValid beta_gossip
unfolding lookup str_discrete
beta_gossip-IsValid = record { distinct = (refl, tt); keyed = ((refl, refl), tt); foreign = refl }

abbrev pub store_of : ℕ → MemoryStore
store_of max_bytes = record {
  entries = [];
  current_bytes = 0;
  max_bytes = max_bytes;
  cleanup_timer = true;
}

-- A node with a capacity, and one with a write that waits for one more confirmation.
abbrev pub node_of : ℕ → Option Tree → ClusterNode
node_of max_bytes tree = record {
  gossip = alpha_gossip;
  store = store_of max_bytes;
  replication_factor = 3;
  pending_writes = [];
  tree = tree;
}

abbrev pub waiting : WriteOperation
waiting = record { caller = 5; confirmations = 1; quorum_needed = 2 }

abbrev pub waiting_node : ClusterNode
waiting_node = record (node_of 0 none) { pending_writes = (js "m", waiting) ∷ [] }

abbrev pub open_conns : ℕ → Connection
open_conns c = record { remote_node_id = none; remote_enclave = none; closed = false }

abbrev pub tree_of : ℕ → Tree
tree_of max_children = record {
  role = substrate;
  max_children = max_children;
  conns = open_conns;
  parent = none;
  children = [];
  ack_routes = [];
  ack_route_timers = [];
  reattaching = false;
  parent_listeners = [];
}

-- A coding of bytes by themselves.
abbrev pub plain_base64 : Base64
plain_base64 = record {
  encode = λ b. b;
  decode = λ s. s;
  decode-encode = λ b. refl;
  encode-ne-nil = λ b h. h;
}

-- A code that joins the secret and the body.
abbrev pub plain_crypto : Crypto
plain_crypto = record {
  hmac_sha256 = λ secret content. secret ++ content;
  to_hex = λ b. b;
  from_hex = λ s. s;
  from_hex-to_hex = λ b. refl;
}

pub exact_tokens-le : (elapsed rate : ℕ) → elapsed * rate / 1000 * 1000 ≤ elapsed * rate
exact_tokens-le elapsed rate = omega arith

abbrev pub exact_floats : Floats
exact_floats = record {
  tokens_for = λ elapsed rate. elapsed * rate / 1000;
  tokens_for-le = exact_tokens-le;
}

abbrev pub stringify_key : WireMessage → List ℕ
stringify_key wire = wire.message_id

-- A parser that always finds the number 90.
abbrev pub parse_ninety : Str → Option ℕ
parse_ninety s = some 90
