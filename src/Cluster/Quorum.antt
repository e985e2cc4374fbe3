-- ===== src/Cluster/Quorum.antt =====
-- repram-mcp/src/node/cluster.ts: the size of a quorum.
use repram.Common.{ℕ, ◌+◌, ◌≤◌, ◌<◌, min, arith, length}
use repram.Gossip.{get_replication_peers}
use repram.Cluster.{ClusterNode, quorum_size}

-- The nodes of the enclave, the local one included.
abbrev pub enclave_nodes : ClusterNode → ℕ
enclave_nodes n = length (get_replication_peers n.gossip) + 1

-- A quorum is a strict majority of the replicas that a write can have, so two quorums among them
-- meet; it is the least majority, at least 1, and never more nodes than the enclave has.
pub quorum_size_lem :
    (n : ClusterNode)
    → (min (enclave_nodes n) n.replication_factor < quorum_size n + quorum_size n)
      × (quorum_size n + quorum_size n ≤ min (enclave_nodes n) n.replication_factor + 2)
      × (1 ≤ quorum_size n)
      × (quorum_size n ≤ enclave_nodes n)
unfolding quorum_size
quorum_size_lem n = omega arith
