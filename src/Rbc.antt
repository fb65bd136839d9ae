-- ===== src/Rbc.antt =====
-- ayatori-rbc/src: the tree of hashes that the reliable broadcast authenticates its shards with.
pub mod MerkleTree
pub mod Scheme
pub mod Shard
