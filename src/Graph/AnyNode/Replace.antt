-- ===== src/Graph/AnyNode/Replace.antt =====
-- ayatori/src/graph_representation/specific_nodes.rs: `with_replacements` of the nodes, whose helpers put
-- a node in the place of another one where the type of the argument has it.
pub mod Typing
pub mod Total
use ayatori.Prelude.{List, [], ◌∷◌, Option, none, some, Bool, if◌then◌else◌}
use ayatori.Collections.Order.{nat_ord}
use ayatori.Collections.BTreeMap.{BTreeMap, get}
use ayatori.Entities.Errors.{Result, ok, err, ◌>>=◌, RuntimeError, failed}
use ayatori.Entities.Params.{SessionParameters}
use ayatori.Graph.AnyNode.{
  NodeId, AnyNode, compute_scalar, collect, compute_mapping, serialize_and_sign_bc,
  serialize_and_sign_dm, deserialize_and_check, send_bc, send_dm, send_all, receive,
  scalar_argument, merge_scalars, ComputeMappingKind, with_reveal, NamedNodes, no_args, arg, Nodes,
  no_nodes, next, node_id,
}
use ayatori.Graph.AnyNode.Unions.{
  is_compute_scalar_arg, is_compute_mapping_arg, is_collect_arg, is_broadcast_arg,
  is_direct_message_arg, is_dependency, is_bc_signature, is_dm_signature, is_reception, is_sent_dm,
}

abbrev pub Replacements : SessionParameters → Type 0
Replacements P = BTreeMap NodeId (AnyNode P)

module _ {P : SessionParameters} where
  unfoldable pub replaced :
      (AnyNode P → Bool) → AnyNode P → Option (AnyNode P) → Result RuntimeError (AnyNode P)
  replaced fits node none = ok node
  replaced fits node (some new_node) =
      if fits new_node then ok new_node else err (failed "Replacement of an unsupported type")

  unfoldable pub replace_in_node :
      (AnyNode P → Bool) → AnyNode P → Replacements P → Result RuntimeError (AnyNode P)
  replace_in_node fits node replacements = replaced fits node (get replacements (node_id node))

  unfoldable pub replace_in_btreemap :
      (AnyNode P → Bool) → NamedNodes P → Replacements P → Result RuntimeError (NamedNodes P)
  replace_in_btreemap fits no_args replacements = ok no_args
  replace_in_btreemap fits (arg name node args) replacements =
      replace_in_node fits node replacements >>= λ new_node.
      replace_in_btreemap fits args replacements >>= λ new_args. ok (arg name new_node new_args)

  unfoldable pub replace_in_slice :
      (AnyNode P → Bool) → Nodes P → Replacements P → Result RuntimeError (Nodes P)
  replace_in_slice fits no_nodes replacements = ok no_nodes
  replace_in_slice fits (next node nodes) replacements =
      replace_in_node fits node replacements >>= λ new_node.
      replace_in_slice fits nodes replacements >>= λ new_nodes. ok (next new_node new_nodes)

  unfoldable pub kind_with_replacements :
      ComputeMappingKind P → Replacements P → Result RuntimeError (ComputeMappingKind P)
  kind_with_replacements (ComputeMappingKind.simple function) replacements =
      ok (ComputeMappingKind.simple function)
  kind_with_replacements (with_reveal function verification args) replacements =
      replace_in_btreemap is_compute_mapping_arg args replacements >>= λ new_args.
      ok (with_reveal function verification new_args)
  kind_with_replacements (ComputeMappingKind.third_party_attributable function verification)
        replacements =
      ok (ComputeMappingKind.third_party_attributable function verification)

  -- The new contents stand behind a new pointer `i`.
  unfoldable pub with_replacements :
      NodeId → AnyNode P → Replacements P → Result RuntimeError (AnyNode P)
  with_replacements i (compute_scalar _ tag kind args nodes) m =
      replace_in_btreemap is_compute_scalar_arg args m >>= λ args'.
      replace_in_slice is_dependency nodes m >>= λ nodes'.
      ok (compute_scalar i tag kind args' nodes')
  with_replacements i (collect _ tag values group nodes) m =
      replace_in_node is_collect_arg values m >>= λ values'.
      replace_in_slice is_dependency nodes m >>= λ nodes'. ok (collect i tag values' group nodes')
  with_replacements i (compute_mapping _ tag args kind nodes) m =
      replace_in_btreemap is_compute_mapping_arg args m >>= λ args'.
      kind_with_replacements kind m >>= λ kind'.
      replace_in_slice is_dependency nodes m >>= λ nodes'.
      ok (compute_mapping i tag args' kind' nodes')
  with_replacements i (serialize_and_sign_bc _ tag function signs adapter name) m =
      replace_in_node is_broadcast_arg signs m >>= λ signs'.
      ok (serialize_and_sign_bc i tag function signs' adapter name)
  with_replacements i (serialize_and_sign_dm _ tag function signs adapter name) m =
      replace_in_node is_direct_message_arg signs m >>= λ signs'.
      ok (serialize_and_sign_dm i tag function signs' adapter name)
  with_replacements i (deserialize_and_check _ tag function reads adapter name) m =
      replace_in_node is_reception reads m >>= λ reads'.
      ok (deserialize_and_check i tag function reads' adapter name)
  with_replacements i (send_bc _ tag sends destinations nodes) m =
      replace_in_node is_bc_signature sends m >>= λ sends'.
      replace_in_slice is_dependency nodes m >>= λ nodes'.
      ok (send_bc i tag sends' destinations nodes')
  with_replacements i (send_dm _ tag sends nodes) m =
      replace_in_node is_dm_signature sends m >>= λ sends'.
      replace_in_slice is_dependency nodes m >>= λ nodes'. ok (send_dm i tag sends' nodes')
  with_replacements i (send_all _ tag values destinations) m =
      replace_in_node is_sent_dm values m >>= λ values'. ok (send_all i tag values' destinations)
  with_replacements i (receive _ tag message_name) m = ok (receive i tag message_name)
  with_replacements i (scalar_argument _ tag name) m = ok (scalar_argument i tag name)
  with_replacements i (merge_scalars _ tag left right) m =
      replace_in_node is_compute_scalar_arg left m >>= λ left'.
      replace_in_node is_compute_scalar_arg right m >>= λ right'.
      ok (merge_scalars i tag left' right')
