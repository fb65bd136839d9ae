-- ===== src/Graph/AnyNode/Copies.antt =====
-- ayatori/src/graph_representation/any_node.rs and specific_nodes.rs: the changed copies of a node.
use ayatori.Entities.Tags.{with_added_prefix, collected_with_added_prefix}
use ayatori.Entities.Params.{SessionParameters}
use ayatori.Prelude.{String, Option, none, some}
use ayatori.Graph.AnyNode.{
  Nodes, next, AnyNode, compute_scalar, collect, compute_mapping, serialize_and_sign_bc,
  serialize_and_sign_dm, deserialize_and_check, send_bc, send_dm, send_all, receive,
  scalar_argument, merge_scalars, no_nodes, NodeId,
}

module _ {P : SessionParameters} where
  -- `without_dependencies` of the contents, behind a new pointer `i`.
  unfoldable pub without_dependencies : NodeId → AnyNode P → AnyNode P
  without_dependencies i (compute_scalar _ tag kind args nodes) =
      compute_scalar i tag kind args no_nodes
  without_dependencies i (collect _ tag values group nodes) = collect i tag values group no_nodes
  without_dependencies i (compute_mapping _ tag args kind nodes) =
      compute_mapping i tag args kind no_nodes
  without_dependencies i (serialize_and_sign_bc _ tag function signs adapter name) =
      serialize_and_sign_bc i tag function signs adapter name
  without_dependencies i (serialize_and_sign_dm _ tag function signs adapter name) =
      serialize_and_sign_dm i tag function signs adapter name
  without_dependencies i (deserialize_and_check _ tag function reads adapter name) =
      deserialize_and_check i tag function reads adapter name
  without_dependencies i (send_bc _ tag sends destinations nodes) =
      send_bc i tag sends destinations no_nodes
  without_dependencies i (send_dm _ tag sends nodes) = send_dm i tag sends no_nodes
  without_dependencies i (send_all _ tag values destinations) = send_all i tag values destinations
  without_dependencies i (receive _ tag message_name) = receive i tag message_name
  without_dependencies i (scalar_argument _ tag name) = scalar_argument i tag name
  without_dependencies i (merge_scalars _ tag left right) = merge_scalars i tag left right

  unfoldable pub node_with_added_prefix : NodeId → AnyNode P → String → AnyNode P
  node_with_added_prefix i (compute_scalar _ tag kind args nodes) prefix =
      compute_scalar i (with_added_prefix tag prefix) kind args nodes
  node_with_added_prefix i (collect _ tag values group nodes) prefix =
      collect i (collected_with_added_prefix tag prefix) values group nodes
  node_with_added_prefix i (compute_mapping _ tag args kind nodes) prefix =
      compute_mapping i (with_added_prefix tag prefix) args kind nodes
  node_with_added_prefix i (serialize_and_sign_bc _ tag function signs adapter name) prefix =
      serialize_and_sign_bc i (with_added_prefix tag prefix) function signs adapter
        (with_added_prefix name prefix)
  node_with_added_prefix i (serialize_and_sign_dm _ tag function signs adapter name) prefix =
      serialize_and_sign_dm i (with_added_prefix tag prefix) function signs adapter
        (with_added_prefix name prefix)
  node_with_added_prefix i (deserialize_and_check _ tag function reads adapter name) prefix =
      deserialize_and_check i (with_added_prefix tag prefix) function reads adapter
        (with_added_prefix name prefix)
  node_with_added_prefix i (send_bc _ tag sends destinations nodes) prefix =
      send_bc i (with_added_prefix tag prefix) sends destinations nodes
  node_with_added_prefix i (send_dm _ tag sends nodes) prefix =
      send_dm i (with_added_prefix tag prefix) sends nodes
  node_with_added_prefix i (send_all _ tag values destinations) prefix =
      send_all i (with_added_prefix tag prefix) values destinations
  node_with_added_prefix i (receive _ tag message_name) prefix =
      receive i (with_added_prefix tag prefix) (with_added_prefix message_name prefix)
  node_with_added_prefix i (scalar_argument _ tag name) prefix =
      scalar_argument i (with_added_prefix tag prefix) name
  node_with_added_prefix i (merge_scalars _ tag left right) prefix =
      merge_scalars i (with_added_prefix tag prefix) left right

  unfoldable pub pushed : Nodes P → AnyNode P → Nodes P
  pushed no_nodes dependency = next dependency no_nodes
  pushed (next node nodes) dependency = next node (pushed nodes dependency)

  -- `with_dependency`, which the types of nodes that have dependencies implement and no others.
  unfoldable pub with_dependency : NodeId → AnyNode P → AnyNode P → Option (AnyNode P)
  with_dependency i (compute_scalar _ tag kind args nodes) dependency =
      some (compute_scalar i tag kind args (pushed nodes dependency))
  with_dependency i (collect _ tag values group nodes) dependency =
      some (collect i tag values group (pushed nodes dependency))
  with_dependency i (compute_mapping _ tag args kind nodes) dependency =
      some (compute_mapping i tag args kind (pushed nodes dependency))
  with_dependency i (send_bc _ tag sends destinations nodes) dependency =
      some (send_bc i tag sends destinations (pushed nodes dependency))
  with_dependency i (send_dm _ tag sends nodes) dependency =
      some (send_dm i tag sends (pushed nodes dependency))
  with_dependency i _ dependency = none
