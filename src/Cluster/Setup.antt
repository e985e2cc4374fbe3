-- ===== src/Cluster/Setup.antt =====
-- repram-mcp/src/node/cluster.ts: the constructor of `ClusterNode`, what is set on it before it
-- starts, and the calls that go to its store or its gossip.
use repram.Common.{
  ℕ, ◌+◌, ◌*◌, ◌≡◌, Option, none, some, true, List, [], ◌∷◌, Str, truthy, ltb, eq_refl,
  default_enclave, if◌then◌else◌, length, arith,
}
use repram.Wire.{NodeInfo, or_default}
use repram.Storage
use repram.Storage.{Buffer, Entry, Existence, MemoryStore, ok}
use repram.Storage.Reads.{get-put}
use repram.Gossip
use repram.Gossip.{Gossip, get_peers, get_replication_peers}
use repram.Gossip.Intervals
use repram.Gossip.Intervals.{Intervals}
use repram.Tree.{Tree}
use repram.Cluster.{ClusterNode, quorum_size, settle, created, write, replicate}

pub record ClusterNodeOptions : Type 0 where
  pub node_id : Str
  pub address : Str
  pub gossip_port : ℕ
  pub http_port : ℕ
  pub enclave : Option Str
  pub replication_factor : Option ℕ
  pub max_storage_bytes : Option ℕ

-- `options.enclave || "default"`
unfoldable pub enclave_of : Option Str → Str
enclave_of none = default_enclave
enclave_of (some e) = if truthy e then e else default_enclave

unfoldable pub init : ClusterNodeOptions → ClusterNode
unfolding enclave_of
init options =
    let factor = or_default 3 options.replication_factor in
    record {
      gossip =
          Gossip.init
            (record {
              id = options.node_id;
              address = options.address;
              port = options.gossip_port;
              http_port = options.http_port;
              enclave = enclave_of options.enclave;
            })
            factor;
      store = Storage.init (or_default 0 options.max_storage_bytes);
      replication_factor = factor;
      pending_writes = [];
      tree = none;
    }

unfoldable pub set_transport : ClusterNode → ClusterNode
set_transport n = record n { gossip = record n.gossip { has_transport = true } }

unfoldable pub set_tree_manager : ClusterNode → Tree → ClusterNode
set_tree_manager n tree = record n { tree = some tree }

-- `none` where the gossip throws, because its transport is not set.
unfoldable pub start : ClusterNode → Intervals → Option Intervals
unfolding Gossip.Intervals.start
start n t = Gossip.Intervals.start n.gossip t

unfoldable pub get : ℕ → ClusterNode → Str → Option Buffer
get now n key = Storage.get now n.store key

unfoldable pub get_with_metadata : ℕ → ClusterNode → Str → Option Entry
get_with_metadata now n key = Storage.get_with_metadata now n.store key

unfoldable pub exists : ℕ → ClusterNode → Str → Existence
exists now n key = Storage.exists now n.store key

unfoldable pub scan : ℕ → ClusterNode → Option Str → List Str
scan now n prefix = Storage.scan now n.store prefix

unfoldable pub get_enclave : ClusterNode → Str
get_enclave n = n.gossip.local_node.enclave

unfoldable pub topology : ClusterNode → List NodeInfo
topology n = get_peers n.gossip

unfoldable pub pending_write_count : ClusterNode → ℕ
pending_write_count n = length n.pending_writes

init-quorum : (options : ClusterNodeOptions) → quorum_size (init options) ≡ 1
unfolding init quorum_size Gossip.init get_replication_peers
init-quorum options = ground arith

alone-quorum : (n : ClusterNode) → get_replication_peers n.gossip ≡ [] → quorum_size n ≡ 1
unfolding quorum_size
alone-quorum n alone = ground (arith, alone)

-- A write that fits, at a node that knows no peer of its enclave: it is answered with 201 at once,
-- whatever the replication factor, nothing is sent and no write waits, and the value is read until
-- its TTL is over and not from then on.
pub write-alone :
    (draw : ℕ → ℕ) (max_seen now at caller : ℕ) (n : ClusterNode) (key : Str) (content : Buffer)
    (ttl : ℕ) (s : MemoryStore)
    → get_replication_peers n.gossip ≡ []
    → Storage.put now n.store key content ttl ≡ ok s
    → let outcome = write draw max_seen now caller n key content ttl in
      (outcome.effects ≡ settle caller created ∷ [])
      × (pending_write_count outcome.node ≡ pending_write_count n)
      × (get at outcome.node key ≡ (if ltb at (now + ttl * 1000) then some content else none))
unfolding write replicate pending_write_count get
write-alone draw max_seen now at caller n key content ttl s alone stored =
    let single = alone-quorum n alone in
    let read = get-put now at n.store key key content ttl stored in
    ground (arith, single, stored, read, eq_refl key)
