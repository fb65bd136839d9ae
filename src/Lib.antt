-- ===== src/Lib.antt =====
-- Ayatori runs a distributed protocol that is written as a graph of nodes. The graph is flattened
-- into rules; a session keeps the rules and the values computed so far, makes tasks of the rules
-- that can fire, and is given the results of the tasks and the messages of the other parties back as
-- updates, until the output node has a value or too many parties are banned.
--
-- The files follow the crates' directories.
--   Collections: the ordered sets and maps of the standard library (BTreeSet, BTreeMap).
--   Entities: ayatori/src/entities. Tags are the names of the slots for values, Party the groups with
--     a threshold, Message the signed values, Value the type-erased values and the arguments of
--     functions, Function the functions of a protocol and the default serialization of messages.
--     Params is ayatori/src/traits.rs, with signatures, hashes, random bytes and the wire format as
--     parameters.
--   Graph: ayatori/src/graph_representation. AnyNode has the kinds of nodes of specific_nodes.rs and
--     any_node.rs with their addresses, arguments and dependencies; Copies their copies with a prefix
--     or without dependencies; Unions the types that union_nodes.rs gives them, as tests; Replace their
--     copies with nodes replaced. Traversal is the two iterators of node_tree.rs over any nodes, and
--     Tree, Mutation and Subtree of AnyNode are its methods on graphs, but for
--     get_reproduction_subtree, in Reproduction. Args is args.rs, Constructors is constructors.rs. Nodes has the fields of the nodes
--     that rules read, and AnyNode.Views takes them from a node.
--   Flat: ayatori/src/flat_representation. Conditions (on scalars, on the elements of each party, on a
--     quorum), Rules, the Actions that they make, and the Ruleset, which is updated with every value
--     and ban and popped one action at a time. Ruleset.Groups is PropagatedGroups, the parties that
--     each mapping node is computed for; Ruleset.Building and Ruleset.Build are Ruleset::new.
--   Execution: ayatori/src/execution. Storage has the values by tag; Update, Compute, Preprocess, Send
--     and Task are task.rs; Session is session.rs with Session.Tasks, Session.Inputs,
--     Session.Reports and Session.Build, which makes a session of a protocol; Evidence, Evidence.Verify and
--     Session.Reproduction are evidence.rs.
--   Rbc: ayatori-rbc/src. MerkleTree is merkle_tree.rs: a list of nodes, level after level, whose
--     branches prove that an item stands at an index. An index out of bounds, a panic, is a none, and so
--     is a shift by the width of a usize in a build that checks overflow; Target has both settings.
--     Scheme and Shard are the sizes and the shards of sharding.rs.
--   Tests: concrete parameters, and inputs at which the conditions of the theorems hold.
--
-- State is passed on explicitly: an operation on `&mut self` returns the new state, and one that can
-- fail a Result. An update that fails gives up the session, as the code does. A Value is a data type
-- with a constructor for each type that the crate itself stores, and a parameter for those of the
-- protocol; a downcast is a test of the constructor. The texts of errors are named by the check that
-- failed. A field `data` or `ruleset` of the code is `signs`, `reads`, `session_data`,
-- `bytes` or `rules` here.
--
-- A node is one data type with a constructor for each kind, and carries its address, the NodeId by
-- which the code tells shared nodes apart; what makes nodes takes the next free address and gives it
-- back. The code has a Rust type for the nodes that can stand in each place; here these are tests,
-- which a replacement runs, and a node in the wrong place is an error `wrong_type` of what reads it.
-- The panics of `expect` in node_tree.rs are errors here too.
--
-- The loop that replays signed values in evidence.rs is on fuel: one more than the values to be
-- checked and the actions that the rules can still give is enough. The iterators of node_tree.rs are on
-- fuel that bounds the ways down from the queued nodes, counted twice, since a node is pushed at most
-- twice for each way that leads to it. The logarithm and the next power of two of merkle_tree.rs are on
-- fuel too, as much as their argument, which is above the number of halvings or doublings. All other
-- recursion is structural.
--
-- Not modelled: the event loops on tokio, which only move messages; the development tools, with the
-- replacement of nodes for tests; the printing of nodes and the traces of errors; the conversions
-- between tag types; of the crate ayatori-rbc, the encoding and decoding of shards and the protocol;
-- the examples and integration tests, which are clients of the library.
pub mod Prelude
pub mod Collections
pub mod Entities
pub mod Graph
pub mod Flat
pub mod Execution
pub mod Rbc
pub mod Tests
