-- ===== src/Graph/AnyNode/Unions.antt =====
-- ayatori/src/graph_representation/union_nodes.rs: which nodes each union has. A conversion from a node
-- (`TryFrom<AnyNode>`) succeeds exactly where the test does. `Node<T>` is the union of one variant.
pub mod Tags
pub mod Variants
use ayatori.Prelude.{Bool, true, false, List, [], ◌∷◌}
use ayatori.Entities.Params.{SessionParameters}
use ayatori.Graph.AnyNode.{
  AnyNode, compute_scalar, collect, compute_mapping, serialize_and_sign_bc, serialize_and_sign_dm,
  deserialize_and_check, send_bc, send_dm, send_all, receive, scalar_argument, merge_scalars,
}

module _ {P : SessionParameters} where
  unfoldable pub is_compute_scalar_arg : AnyNode P → Bool
  is_compute_scalar_arg (compute_scalar i tag kind args nodes) = true
  is_compute_scalar_arg (scalar_argument i tag name) = true
  is_compute_scalar_arg (merge_scalars i tag left right) = true
  is_compute_scalar_arg (collect i tag values group nodes) = true
  is_compute_scalar_arg _ = false

  unfoldable pub is_compute_mapping_arg : AnyNode P → Bool
  is_compute_mapping_arg (compute_scalar i tag kind args nodes) = true
  is_compute_mapping_arg (scalar_argument i tag name) = true
  is_compute_mapping_arg (merge_scalars i tag left right) = true
  is_compute_mapping_arg (collect i tag values group nodes) = true
  is_compute_mapping_arg (compute_mapping i tag args kind nodes) = true
  is_compute_mapping_arg (serialize_and_sign_bc i tag f signs adapter name) = true
  is_compute_mapping_arg (serialize_and_sign_dm i tag f signs adapter name) = true
  is_compute_mapping_arg (deserialize_and_check i tag f reads adapter name) = true
  is_compute_mapping_arg _ = false

  unfoldable pub is_collect_arg : AnyNode P → Bool
  is_collect_arg (compute_mapping i tag args kind nodes) = true
  is_collect_arg (serialize_and_sign_dm i tag f signs adapter name) = true
  is_collect_arg (deserialize_and_check i tag f reads adapter name) = true
  is_collect_arg (receive i tag name) = true
  is_collect_arg _ = false

  unfoldable pub is_broadcast_arg : AnyNode P → Bool
  is_broadcast_arg (compute_scalar i tag kind args nodes) = true
  is_broadcast_arg (scalar_argument i tag name) = true
  is_broadcast_arg _ = false

  unfoldable pub is_direct_message_arg : AnyNode P → Bool
  is_direct_message_arg (compute_scalar i tag kind args nodes) = true
  is_direct_message_arg (scalar_argument i tag name) = true
  is_direct_message_arg (compute_mapping i tag args kind nodes) = true
  is_direct_message_arg (deserialize_and_check i tag f reads adapter name) = true
  is_direct_message_arg _ = false

  unfoldable pub is_output_node : AnyNode P → Bool
  is_output_node (compute_scalar i tag kind args nodes) = true
  is_output_node _ = false

  unfoldable pub is_dependency : AnyNode P → Bool
  is_dependency (compute_scalar i tag kind args nodes) = true
  is_dependency (collect i tag values group nodes) = true
  is_dependency (merge_scalars i tag left right) = true
  is_dependency (send_bc i tag sends destinations nodes) = true
  is_dependency (send_all i tag values destinations) = true
  is_dependency _ = false

  -- `Node<SerializeAndSignBC>`
  unfoldable pub is_bc_signature : AnyNode P → Bool
  is_bc_signature (serialize_and_sign_bc i tag f signs adapter name) = true
  is_bc_signature _ = false

  -- `Node<SerializeAndSignDM>`
  unfoldable pub is_dm_signature : AnyNode P → Bool
  is_dm_signature (serialize_and_sign_dm i tag f signs adapter name) = true
  is_dm_signature _ = false

  -- `Node<Receive>`
  unfoldable pub is_reception : AnyNode P → Bool
  is_reception (receive i tag name) = true
  is_reception _ = false

  -- `Node<SendDM>`
  unfoldable pub is_sent_dm : AnyNode P → Bool
  is_sent_dm (send_dm i tag sends nodes) = true
  is_sent_dm _ = false
