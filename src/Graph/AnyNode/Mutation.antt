-- ===== src/Graph/AnyNode/Mutation.antt =====
-- ayatori/src/graph_representation/node_tree.rs: the copies of a graph in which every node is changed.
-- The address that the next new node gets is passed on from one to the next.
pub mod Infallible
pub mod Shallow
use ayatori.Prelude.{ℕ, suc, String, List, [], ◌∷◌, ◌==◌, if◌then◌else◌}
use ayatori.Collections.Order.{nat_ord}
use ayatori.Collections.BTreeMap.{insert}
use ayatori.Entities.Errors.{Result, ok, err, ◌>>=◌, RuntimeError}
use ayatori.Entities.Params.{SessionParameters}
use ayatori.Graph.AnyNode.{NodeId, AnyNode, scalar_argument, node_id, all_args_and_dependencies}
use ayatori.Graph.AnyNode.Copies.{without_dependencies, node_with_added_prefix}
use ayatori.Graph.AnyNode.Replace.{Replacements, with_replacements}
use ayatori.Graph.AnyNode.Tree.{leaves_first_from}
use ayatori.Graph.Args.{NodesByName, get_bound}

-- What the closure makes of a node, and the next address.
abbrev pub Mutation : SessionParameters → Type 0
Mutation P = NodeId → AnyNode P → Result RuntimeError (AnyNode P × NodeId)

module _ {P : SessionParameters} where
  -- The closure, then the nodes that take the place of the children.
  unfoldable pub mutated_node :
      Mutation P → Replacements P → NodeId → AnyNode P → Result RuntimeError (AnyNode P × NodeId)
  mutated_node f m i node =
      f i node >>= λ r. with_replacements r.1 r.0 m >>= λ new_node. ok (new_node, suc r.1)

  unfoldable pub keep_new : Replacements P → AnyNode P → AnyNode P → Replacements P
  keep_new m node new_node =
      if node_id new_node == node_id node then m else insert m (node_id node) new_node

  -- The loop over the nodes below the root.
  unfoldable pub mutated_nodes :
      Mutation P
      → List (AnyNode P)
      → Replacements P
      → NodeId
      → Result RuntimeError (Replacements P × NodeId)
  mutated_nodes f [] m i = ok (m, i)
  mutated_nodes f (node ∷ nodes) m i =
      mutated_node f m i node >>= λ r. mutated_nodes f nodes (keep_new m node r.0) r.1

  unfoldable pub mutated_tree :
      Mutation P → NodeId → AnyNode P → Result RuntimeError (AnyNode P × NodeId)
  mutated_tree f i root =
      mutated_nodes f (leaves_first_from (all_args_and_dependencies root)) [] i >>= λ r.
      mutated_node f r.0 r.1 root

  unfoldable pub tree_without_dependencies :
      NodeId → AnyNode P → Result RuntimeError (AnyNode P × NodeId)
  tree_without_dependencies i root =
      mutated_tree (λ j node. ok (without_dependencies j node, suc j)) i root

  unfoldable pub tree_with_added_prefix :
      String → NodeId → AnyNode P → Result RuntimeError (AnyNode P × NodeId)
  tree_with_added_prefix prefix i root =
      mutated_tree (λ j node. ok (node_with_added_prefix j node prefix, suc j)) i root

  -- The closure of `with_substituted_arguments`.
  unfoldable pub substituted_argument : NodesByName P → Mutation P
  substituted_argument args i (scalar_argument j tag name) =
      get_bound args name >>= λ node. ok (node, i)
  substituted_argument args i node = ok (node, i)

  unfoldable pub with_substituted_arguments :
      NodesByName P → NodeId → AnyNode P → Result RuntimeError (AnyNode P × NodeId)
  with_substituted_arguments args i root = mutated_tree (substituted_argument args) i root

  unfoldable pub replaced_subnode : AnyNode P → AnyNode P → Mutation P
  replaced_subnode old_subnode new_subnode i node =
      ok ((if node_id node == node_id old_subnode then new_subnode else node), i)

  unfoldable pub with_replaced_subnode :
      AnyNode P → AnyNode P → NodeId → AnyNode P → Result RuntimeError (AnyNode P × NodeId)
  with_replaced_subnode old_subnode new_subnode i root =
      mutated_tree (replaced_subnode old_subnode new_subnode) i root
