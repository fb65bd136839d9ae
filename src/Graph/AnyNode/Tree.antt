-- ===== src/Graph/AnyNode/Tree.antt =====
-- ayatori/src/graph_representation/node_tree.rs: the nodes below a node, in the orders that the iterators
-- give them. The fuel of an iterator is the cost of its queue, which is enough for it.
pub mod Order
use ayatori.Prelude.{ℕ, ◌+◌, List, [], ◌∷◌, ◌++◌, Option, none, some, total}
use ayatori.Entities.Params.{SessionParameters}
use ayatori.Graph.AnyNode.{
  AnyNode, compute_scalar, collect, compute_mapping, serialize_and_sign_bc, serialize_and_sign_dm,
  deserialize_and_check, send_bc, send_dm, send_all, receive, scalar_argument, merge_scalars,
  ComputeMappingKind, with_reveal, NamedNodes, no_args, arg, Nodes, no_nodes, next, node_id,
  all_args, all_args_and_dependencies,
}
use ayatori.Graph.Traversal.{push_all, leaves_first, unordered}

-- Two steps for each node below a node, counted once for each way to it.
unfoldable mutual
  pub cost : {P : SessionParameters} → AnyNode P → ℕ
  cost (compute_scalar i tag kind args nodes) = 2 + (cost_args args + cost_nodes nodes)
  cost (collect i tag values group nodes) = 2 + (cost values + cost_nodes nodes)
  cost (compute_mapping i tag args kind nodes) =
      2 + (cost_args args + (cost_kind kind + cost_nodes nodes))
  cost (serialize_and_sign_bc i tag function signs adapter name) = 2 + cost signs
  cost (serialize_and_sign_dm i tag function signs adapter name) = 2 + cost signs
  cost (deserialize_and_check i tag function reads adapter name) = 2 + cost reads
  cost (send_bc i tag sends destinations nodes) = 2 + (cost sends + cost_nodes nodes)
  cost (send_dm i tag sends nodes) = 2 + (cost sends + cost_nodes nodes)
  cost (send_all i tag values destinations) = 2 + cost values
  cost (receive i tag message_name) = 2
  cost (scalar_argument i tag name) = 2
  cost (merge_scalars i tag left right) = 2 + (cost left + cost right)

  pub cost_kind : {P : SessionParameters} → ComputeMappingKind P → ℕ
  cost_kind (ComputeMappingKind.simple function) = 0
  cost_kind (with_reveal function verification args) = cost_args args
  cost_kind (ComputeMappingKind.third_party_attributable function verification) = 0

  pub cost_args : {P : SessionParameters} → NamedNodes P → ℕ
  cost_args no_args = 0
  cost_args (arg name node args) = cost node + cost_args args

  pub cost_nodes : {P : SessionParameters} → Nodes P → ℕ
  cost_nodes no_nodes = 0
  cost_nodes (next node nodes) = cost node + cost_nodes nodes

unfoldable pub or_nothing : {A : Type 0} → Option (List A) → List A
or_nothing none = []
or_nothing (some xs) = xs

module _ {P : SessionParameters} where
  -- `LeavesFirstIterator::new_with_nodes`, collected.
  unfoldable pub leaves_first_from : List (AnyNode P) → List (AnyNode P)
  leaves_first_from roots =
      or_nothing
        (leaves_first node_id all_args_and_dependencies (total cost roots) (push_all [] roots) [])

  unfoldable pub flattened_leaves_first : AnyNode P → List (AnyNode P)
  unfolding leaves_first_from
  flattened_leaves_first root = leaves_first_from (root ∷ [])

  unfoldable pub flattened_roots_first : AnyNode P → List (AnyNode P)
  flattened_roots_first root = push_all [] (flattened_leaves_first root)

  -- `UnorderedIterator::new_with_nodes`, collected, with the arguments alone or the dependencies too.
  unfoldable pub unordered_args_from : List (AnyNode P) → List (AnyNode P)
  unordered_args_from roots =
      or_nothing (unordered node_id all_args (total cost roots) (push_all [] roots) [])

  unfoldable pub flattened_args_only : AnyNode P → List (AnyNode P)
  unfolding unordered_args_from
  flattened_args_only root = unordered_args_from (root ∷ [])

  unfoldable pub flattened : AnyNode P → List (AnyNode P)
  flattened root =
      or_nothing (unordered node_id all_args_and_dependencies (cost root) (root ∷ []) [])
