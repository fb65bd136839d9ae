-- ===== src/Graph/AnyNode/Unions/Tags.antt =====
-- Which of the unions of ayatori/src/graph_representation/union_nodes.rs have only scalars, and which have
-- only mappings.
use ayatori.Prelude.{String, List, [], ◌∷◌, ◌≡◌, refl, true, arith, All}
use ayatori.Collections.BTreeMap.{BTreeMap}
use ayatori.Entities.Tags.{FullName, ScalarTag, MappingTag, mapping}
use ayatori.Entities.Errors.{ok}
use ayatori.Entities.Params.{SessionParameters}
use ayatori.Graph.AnyNode.{
  AnyNode, compute_scalar, collect, compute_mapping, serialize_and_sign_bc, serialize_and_sign_dm,
  deserialize_and_check, send_bc, send_dm, send_all, receive, scalar_argument, merge_scalars,
  store_in, NamedNodes, no_args, arg, arg_values, Nodes, no_nodes, next, node_list,
}
use ayatori.Graph.AnyNode.Unions.{
  is_compute_scalar_arg, is_collect_arg, is_broadcast_arg, is_dependency, is_bc_signature,
  is_dm_signature, is_reception, is_sent_dm, is_output_node,
}
use ayatori.Graph.AnyNode.Replace.Typing.{AllFit}
use ayatori.Graph.AnyNode.Views.{
  mapping_tag, mapping_part, sent_dm_tag, scalar_tag, scalar_part, signed_bc_tag, signed_dm_tag,
  receive_tag, scalar_args, dependency_tags,
}

module _ {P : SessionParameters} where
  -- The node is no mapping.
  abbrev pub IsScalarNode : AnyNode P → Type 0
  IsScalarNode c = (tag : MappingTag) → ¬ (store_in c ≡ mapping tag)

  -- The unions that have no mapping.
  pub scalar_arg_tag : (c : AnyNode P) → is_compute_scalar_arg c ≡ true → IsScalarNode c
  unfolding is_compute_scalar_arg store_in
  scalar_arg_tag c h tag e = ground (arith, h, e)

  pub broadcast_arg_tag : (c : AnyNode P) → is_broadcast_arg c ≡ true → IsScalarNode c
  unfolding is_broadcast_arg store_in
  broadcast_arg_tag c h tag e = ground (arith, h, e)

  pub bc_signature_tag : (c : AnyNode P) → is_bc_signature c ≡ true → IsScalarNode c
  unfolding is_bc_signature store_in
  bc_signature_tag c h tag e = ground (arith, h, e)

  pub dependency_tag : (c : AnyNode P) → is_dependency c ≡ true → IsScalarNode c
  unfolding is_dependency store_in
  dependency_tag c h tag e = ground (arith, h, e)

  pub scalar_args_tags :
      (nodes : List (AnyNode P)) → AllFit is_compute_scalar_arg nodes → All IsScalarNode nodes
  scalar_args_tags [] a = tt
  scalar_args_tags (n ∷ nodes) a = (scalar_arg_tag n a.0, scalar_args_tags nodes a.1)

  pub output_node_tag : (c : AnyNode P) → is_output_node c ≡ true → IsScalarNode c
  unfolding is_output_node store_in
  output_node_tag c h tag e = ground (arith, h, e)

  pub dependencies_tags :
      (nodes : List (AnyNode P)) → AllFit is_dependency nodes → All IsScalarNode nodes
  dependencies_tags [] a = tt
  dependencies_tags (n ∷ nodes) a = (dependency_tag n a.0, dependencies_tags nodes a.1)

  pub collect_arg_tag :
      (c : AnyNode P)
      → is_collect_arg c ≡ true
      → (tag : MappingTag) × (mapping_tag c ≡ ok tag) × (store_in c ≡ mapping tag)
  unfolding is_collect_arg store_in mapping_tag mapping_part
  collect_arg_tag (compute_scalar i tag kind args nodes) h = absurd (ground (arith, h))
  collect_arg_tag (collect i tag values group nodes) h = absurd (ground (arith, h))
  collect_arg_tag (compute_mapping i tag args kind nodes) h = (_, refl, refl)
  collect_arg_tag (serialize_and_sign_bc i tag f signs adapter n) h = absurd (ground (arith, h))
  collect_arg_tag (serialize_and_sign_dm i tag f signs adapter n) h = (_, refl, refl)
  collect_arg_tag (deserialize_and_check i tag f reads adapter n) h = (_, refl, refl)
  collect_arg_tag (send_bc i tag sends destinations nodes) h = absurd (ground (arith, h))
  collect_arg_tag (send_dm i tag sends nodes) h = absurd (ground (arith, h))
  collect_arg_tag (send_all i tag values destinations) h = absurd (ground (arith, h))
  collect_arg_tag (receive i tag n) h = (_, refl, refl)
  collect_arg_tag (scalar_argument i tag n) h = absurd (ground (arith, h))
  collect_arg_tag (merge_scalars i tag left right) h = absurd (ground (arith, h))

  pub sent_dm_arg_tag :
      (c : AnyNode P)
      → is_sent_dm c ≡ true
      → (tag : FullName) × (sent_dm_tag c ≡ ok tag) × (store_in c ≡ mapping (MappingTag.sent tag))
  unfolding is_sent_dm store_in sent_dm_tag
  sent_dm_arg_tag (compute_scalar i tag kind args nodes) h = absurd (ground (arith, h))
  sent_dm_arg_tag (collect i tag values group nodes) h = absurd (ground (arith, h))
  sent_dm_arg_tag (compute_mapping i tag args kind nodes) h = absurd (ground (arith, h))
  sent_dm_arg_tag (serialize_and_sign_bc i tag f signs adapter n) h = absurd (ground (arith, h))
  sent_dm_arg_tag (serialize_and_sign_dm i tag f signs adapter n) h = absurd (ground (arith, h))
  sent_dm_arg_tag (deserialize_and_check i tag f reads adapter n) h = absurd (ground (arith, h))
  sent_dm_arg_tag (send_bc i tag sends destinations nodes) h = absurd (ground (arith, h))
  sent_dm_arg_tag (send_dm i tag sends nodes) h = (_, refl, refl)
  sent_dm_arg_tag (send_all i tag values destinations) h = absurd (ground (arith, h))
  sent_dm_arg_tag (receive i tag n) h = absurd (ground (arith, h))
  sent_dm_arg_tag (scalar_argument i tag n) h = absurd (ground (arith, h))
  sent_dm_arg_tag (merge_scalars i tag left right) h = absurd (ground (arith, h))

  pub scalar_arg_scalar_tag :
      (c : AnyNode P) → is_compute_scalar_arg c ≡ true → (tag : ScalarTag) × (scalar_tag c ≡ ok tag)
  unfolding is_compute_scalar_arg store_in scalar_tag scalar_part
  scalar_arg_scalar_tag (compute_scalar i tag kind args nodes) h = (_, refl)
  scalar_arg_scalar_tag (collect i tag values group nodes) h = (_, refl)
  scalar_arg_scalar_tag (compute_mapping i tag args kind nodes) h = absurd (ground (arith, h))
  scalar_arg_scalar_tag (serialize_and_sign_bc i tag f signs adapter n) h =
      absurd (ground (arith, h))
  scalar_arg_scalar_tag (serialize_and_sign_dm i tag f signs adapter n) h =
      absurd (ground (arith, h))
  scalar_arg_scalar_tag (deserialize_and_check i tag f reads adapter n) h =
      absurd (ground (arith, h))
  scalar_arg_scalar_tag (send_bc i tag sends destinations nodes) h = absurd (ground (arith, h))
  scalar_arg_scalar_tag (send_dm i tag sends nodes) h = absurd (ground (arith, h))
  scalar_arg_scalar_tag (send_all i tag values destinations) h = absurd (ground (arith, h))
  scalar_arg_scalar_tag (receive i tag n) h = absurd (ground (arith, h))
  scalar_arg_scalar_tag (scalar_argument i tag n) h = (_, refl)
  scalar_arg_scalar_tag (merge_scalars i tag left right) h = (_, refl)

  pub broadcast_arg_scalar_tag :
      (c : AnyNode P) → is_broadcast_arg c ≡ true → (tag : ScalarTag) × (scalar_tag c ≡ ok tag)
  unfolding is_broadcast_arg store_in scalar_tag scalar_part
  broadcast_arg_scalar_tag (compute_scalar i tag kind args nodes) h = (_, refl)
  broadcast_arg_scalar_tag (collect i tag values group nodes) h = absurd (ground (arith, h))
  broadcast_arg_scalar_tag (compute_mapping i tag args kind nodes) h = absurd (ground (arith, h))
  broadcast_arg_scalar_tag (serialize_and_sign_bc i tag f signs adapter n) h =
      absurd (ground (arith, h))
  broadcast_arg_scalar_tag (serialize_and_sign_dm i tag f signs adapter n) h =
      absurd (ground (arith, h))
  broadcast_arg_scalar_tag (deserialize_and_check i tag f reads adapter n) h =
      absurd (ground (arith, h))
  broadcast_arg_scalar_tag (send_bc i tag sends destinations nodes) h = absurd (ground (arith, h))
  broadcast_arg_scalar_tag (send_dm i tag sends nodes) h = absurd (ground (arith, h))
  broadcast_arg_scalar_tag (send_all i tag values destinations) h = absurd (ground (arith, h))
  broadcast_arg_scalar_tag (receive i tag n) h = absurd (ground (arith, h))
  broadcast_arg_scalar_tag (scalar_argument i tag n) h = (_, refl)
  broadcast_arg_scalar_tag (merge_scalars i tag left right) h = absurd (ground (arith, h))

  pub dependency_scalar_tag :
      (c : AnyNode P) → is_dependency c ≡ true → (tag : ScalarTag) × (scalar_tag c ≡ ok tag)
  unfolding is_dependency store_in scalar_tag scalar_part
  dependency_scalar_tag (compute_scalar i tag kind args nodes) h = (_, refl)
  dependency_scalar_tag (collect i tag values group nodes) h = (_, refl)
  dependency_scalar_tag (compute_mapping i tag args kind nodes) h = absurd (ground (arith, h))
  dependency_scalar_tag (serialize_and_sign_bc i tag f signs adapter n) h =
      absurd (ground (arith, h))
  dependency_scalar_tag (serialize_and_sign_dm i tag f signs adapter n) h =
      absurd (ground (arith, h))
  dependency_scalar_tag (deserialize_and_check i tag f reads adapter n) h =
      absurd (ground (arith, h))
  dependency_scalar_tag (send_bc i tag sends destinations nodes) h = (_, refl)
  dependency_scalar_tag (send_dm i tag sends nodes) h = absurd (ground (arith, h))
  dependency_scalar_tag (send_all i tag values destinations) h = (_, refl)
  dependency_scalar_tag (receive i tag n) h = absurd (ground (arith, h))
  dependency_scalar_tag (scalar_argument i tag n) h = absurd (ground (arith, h))
  dependency_scalar_tag (merge_scalars i tag left right) h = (_, refl)

  pub bc_signature_signed_tag :
      (c : AnyNode P) → is_bc_signature c ≡ true → (tag : FullName) × (signed_bc_tag c ≡ ok tag)
  unfolding is_bc_signature store_in signed_bc_tag
  bc_signature_signed_tag (compute_scalar i tag kind args nodes) h = absurd (ground (arith, h))
  bc_signature_signed_tag (collect i tag values group nodes) h = absurd (ground (arith, h))
  bc_signature_signed_tag (compute_mapping i tag args kind nodes) h = absurd (ground (arith, h))
  bc_signature_signed_tag (serialize_and_sign_bc i tag f signs adapter n) h = (_, refl)
  bc_signature_signed_tag (serialize_and_sign_dm i tag f signs adapter n) h =
      absurd (ground (arith, h))
  bc_signature_signed_tag (deserialize_and_check i tag f reads adapter n) h =
      absurd (ground (arith, h))
  bc_signature_signed_tag (send_bc i tag sends destinations nodes) h = absurd (ground (arith, h))
  bc_signature_signed_tag (send_dm i tag sends nodes) h = absurd (ground (arith, h))
  bc_signature_signed_tag (send_all i tag values destinations) h = absurd (ground (arith, h))
  bc_signature_signed_tag (receive i tag n) h = absurd (ground (arith, h))
  bc_signature_signed_tag (scalar_argument i tag n) h = absurd (ground (arith, h))
  bc_signature_signed_tag (merge_scalars i tag left right) h = absurd (ground (arith, h))

  pub dm_signature_signed_tag :
      (c : AnyNode P) → is_dm_signature c ≡ true → (tag : FullName) × (signed_dm_tag c ≡ ok tag)
  unfolding is_dm_signature store_in signed_dm_tag
  dm_signature_signed_tag (compute_scalar i tag kind args nodes) h = absurd (ground (arith, h))
  dm_signature_signed_tag (collect i tag values group nodes) h = absurd (ground (arith, h))
  dm_signature_signed_tag (compute_mapping i tag args kind nodes) h = absurd (ground (arith, h))
  dm_signature_signed_tag (serialize_and_sign_bc i tag f signs adapter n) h =
      absurd (ground (arith, h))
  dm_signature_signed_tag (serialize_and_sign_dm i tag f signs adapter n) h = (_, refl)
  dm_signature_signed_tag (deserialize_and_check i tag f reads adapter n) h =
      absurd (ground (arith, h))
  dm_signature_signed_tag (send_bc i tag sends destinations nodes) h = absurd (ground (arith, h))
  dm_signature_signed_tag (send_dm i tag sends nodes) h = absurd (ground (arith, h))
  dm_signature_signed_tag (send_all i tag values destinations) h = absurd (ground (arith, h))
  dm_signature_signed_tag (receive i tag n) h = absurd (ground (arith, h))
  dm_signature_signed_tag (scalar_argument i tag n) h = absurd (ground (arith, h))
  dm_signature_signed_tag (merge_scalars i tag left right) h = absurd (ground (arith, h))

  pub reception_receive_tag :
      (c : AnyNode P) → is_reception c ≡ true → (tag : FullName) × (receive_tag c ≡ ok tag)
  unfolding is_reception store_in receive_tag
  reception_receive_tag (compute_scalar i tag kind args nodes) h = absurd (ground (arith, h))
  reception_receive_tag (collect i tag values group nodes) h = absurd (ground (arith, h))
  reception_receive_tag (compute_mapping i tag args kind nodes) h = absurd (ground (arith, h))
  reception_receive_tag (serialize_and_sign_bc i tag f signs adapter n) h =
      absurd (ground (arith, h))
  reception_receive_tag (serialize_and_sign_dm i tag f signs adapter n) h =
      absurd (ground (arith, h))
  reception_receive_tag (deserialize_and_check i tag f reads adapter n) h =
      absurd (ground (arith, h))
  reception_receive_tag (send_bc i tag sends destinations nodes) h = absurd (ground (arith, h))
  reception_receive_tag (send_dm i tag sends nodes) h = absurd (ground (arith, h))
  reception_receive_tag (send_all i tag values destinations) h = absurd (ground (arith, h))
  reception_receive_tag (receive i tag n) h = (_, refl)
  reception_receive_tag (scalar_argument i tag n) h = absurd (ground (arith, h))
  reception_receive_tag (merge_scalars i tag left right) h = absurd (ground (arith, h))

  pub scalar_args-total :
      (args : NamedNodes P)
      → AllFit is_compute_scalar_arg (arg_values args)
      → (tags : BTreeMap String ScalarTag) × (scalar_args args ≡ ok tags)
  unfolding scalar_args arg_values
  scalar_args-total no_args a = ([], refl)
  scalar_args-total (arg name node args) a =
      let head = scalar_arg_scalar_tag node a.0 in
      let rest = scalar_args-total args a.1 in ((name, head.0) ∷ rest.0, rw (head.1, rest.1) refl)

  pub dependency_tags-total :
      (nodes : Nodes P)
      → AllFit is_dependency (node_list nodes)
      → (tags : List ScalarTag) × (dependency_tags nodes ≡ ok tags)
  unfolding dependency_tags node_list
  dependency_tags-total no_nodes a = ([], refl)
  dependency_tags-total (next node nodes) a =
      let head = dependency_scalar_tag node a.0 in
      let rest = dependency_tags-total nodes a.1 in (head.0 ∷ rest.0, rw (head.1, rest.1) refl)
