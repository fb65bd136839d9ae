-- ===== src/Graph/AnyNode/Unions/Variants.antt =====
-- The variants of a node: each of the unions of ayatori/src/graph_representation/union_nodes.rs has all nodes
-- of a variant or none.
use ayatori.Prelude.{Bool, ◌≡◌, arith, ℕ}
use ayatori.Collections.Order.{nat_ord}
use ayatori.Entities.Params.{SessionParameters}
use ayatori.Graph.AnyNode.{
  AnyNode, compute_scalar, collect, compute_mapping, serialize_and_sign_bc, serialize_and_sign_dm,
  deserialize_and_check, send_bc, send_dm, send_all, receive, scalar_argument, merge_scalars,
}
use ayatori.Graph.AnyNode.Unions.{
  is_compute_scalar_arg, is_compute_mapping_arg, is_collect_arg, is_broadcast_arg,
  is_direct_message_arg, is_dependency, is_bc_signature, is_dm_signature, is_reception, is_sent_dm,
}

module _ {P : SessionParameters} where
  -- The variant of a node.
  unfoldable pub variant : AnyNode P → ℕ
  variant (compute_scalar i tag kind args nodes) = 0
  variant (collect i tag values group nodes) = 1
  variant (compute_mapping i tag args kind nodes) = 2
  variant (serialize_and_sign_bc i tag f signs adapter n) = 3
  variant (serialize_and_sign_dm i tag f signs adapter n) = 4
  variant (deserialize_and_check i tag f reads adapter n) = 5
  variant (send_bc i tag sends destinations nodes) = 6
  variant (send_dm i tag sends nodes) = 7
  variant (send_all i tag values destinations) = 8
  variant (receive i tag n) = 9
  variant (scalar_argument i tag n) = 10
  variant (merge_scalars i tag left right) = 11

  -- A union has all nodes of a variant or none.
  abbrev pub IsUnion : (AnyNode P → Bool) → Type 0
  IsUnion fits = (m n : AnyNode P) → variant m ≡ variant n → fits m ≡ fits n

  pub is_compute_scalar_arg-IsUnion : IsUnion is_compute_scalar_arg
  unfolding is_compute_scalar_arg variant
  is_compute_scalar_arg-IsUnion m n e = ground (arith, e)

  pub is_compute_mapping_arg-IsUnion : IsUnion is_compute_mapping_arg
  unfolding is_compute_mapping_arg variant
  is_compute_mapping_arg-IsUnion m n e = ground (arith, e)

  pub is_collect_arg-IsUnion : IsUnion is_collect_arg
  unfolding is_collect_arg variant
  is_collect_arg-IsUnion m n e = ground (arith, e)

  pub is_broadcast_arg-IsUnion : IsUnion is_broadcast_arg
  unfolding is_broadcast_arg variant
  is_broadcast_arg-IsUnion m n e = ground (arith, e)

  pub is_direct_message_arg-IsUnion : IsUnion is_direct_message_arg
  unfolding is_direct_message_arg variant
  is_direct_message_arg-IsUnion m n e = ground (arith, e)

  pub is_dependency-IsUnion : IsUnion is_dependency
  unfolding is_dependency variant
  is_dependency-IsUnion m n e = ground (arith, e)

  pub is_bc_signature-IsUnion : IsUnion is_bc_signature
  unfolding is_bc_signature variant
  is_bc_signature-IsUnion m n e = ground (arith, e)

  pub is_dm_signature-IsUnion : IsUnion is_dm_signature
  unfolding is_dm_signature variant
  is_dm_signature-IsUnion m n e = ground (arith, e)

  pub is_reception-IsUnion : IsUnion is_reception
  unfolding is_reception variant
  is_reception-IsUnion m n e = ground (arith, e)

  pub is_sent_dm-IsUnion : IsUnion is_sent_dm
  unfolding is_sent_dm variant
  is_sent_dm-IsUnion m n e = ground (arith, e)
