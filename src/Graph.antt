-- ===== src/Graph.antt =====
-- ayatori/src/graph_representation: the nodes that a protocol is built of.
pub mod Nodes
pub mod Traversal
pub mod AnyNode
pub mod Args
pub mod Constructors
pub mod Reproduction
