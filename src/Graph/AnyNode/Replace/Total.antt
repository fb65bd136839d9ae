-- ===== src/Graph/AnyNode/Replace/Total.antt =====
-- That a replacement of nodes by nodes of their own types succeeds, for `with_replacements` of
-- ayatori/src/graph_representation/specific_nodes.rs.
use ayatori.Prelude.{List, [], ◌∷◌, ◌++◌, Option, none, some, Bool, true, ◌≡◌, refl, ◌∙◌, All}
use ayatori.Collections.Order.{nat_ord}
use ayatori.Collections.BTreeMap.{get, get_or}
use ayatori.Entities.Errors.{ok}
use ayatori.Entities.Params.{SessionParameters}
use ayatori.Graph.AnyNode.{
  NodeId, AnyNode, compute_scalar, collect, compute_mapping, serialize_and_sign_bc,
  serialize_and_sign_dm, deserialize_and_check, send_bc, send_dm, send_all, receive,
  scalar_argument, merge_scalars, ComputeMappingKind, with_reveal, NamedNodes, no_args, arg, Nodes,
  no_nodes, next, node_id, arg_values, node_list, verification_args, all_args, dependencies,
  all_args_and_dependencies,
}
use ayatori.Graph.AnyNode.Unions.{
  is_compute_scalar_arg, is_compute_mapping_arg, is_collect_arg, is_broadcast_arg,
  is_direct_message_arg, is_dependency, is_bc_signature, is_dm_signature, is_reception, is_sent_dm,
}
use ayatori.Graph.AnyNode.Replace.{
  Replacements, replaced, replace_in_node, replace_in_btreemap, replace_in_slice,
  kind_with_replacements, with_replacements,
}
use ayatori.Graph.AnyNode.Replace.Typing.{substitute, AllFit, IsWellTyped}
use ayatori.Graph.AnyNode.Unions.Variants.{
  IsUnion, is_bc_signature-IsUnion, is_broadcast_arg-IsUnion, is_collect_arg-IsUnion,
  is_compute_mapping_arg-IsUnion, is_compute_scalar_arg-IsUnion, is_dependency-IsUnion,
  is_direct_message_arg-IsUnion, is_dm_signature-IsUnion, is_reception-IsUnion, is_sent_dm-IsUnion,
  variant,
}

module _ {P : SessionParameters} where
  -- Each of the nodes is replaced by one of its variant, or not at all.
  abbrev pub KeepsVariants : Replacements P → List (AnyNode P) → Type 0
  KeepsVariants m nodes = All (λ c. variant (substitute m c) ≡ variant c) nodes

  replaced-total :
      (fits : AnyNode P → Bool) (node : AnyNode P) (r : Option (AnyNode P))
      → fits (elim r [ none ↦ node | some v ↦ v ]) ≡ true
      → (n : AnyNode P) × (replaced fits node r ≡ ok n)
  unfolding replaced
  replaced-total fits node none h = (node, refl)
  replaced-total fits node (some v) h = (v, rw h refl)

  replace_in_node-total :
      (fits : AnyNode P → Bool)
      → IsUnion fits
      → (node : AnyNode P) (m : Replacements P) → fits node ≡ true
      → variant (substitute m node) ≡ variant node
      → (n : AnyNode P) × (replace_in_node fits node m ≡ ok n)
  unfolding replace_in_node substitute get_or
  replace_in_node-total fits union node m f v =
      replaced-total fits node (get m (node_id node)) (union _ node v ∙ f)

  replace_in_btreemap-total :
      (fits : AnyNode P → Bool)
      → IsUnion fits
      → (args : NamedNodes P) (m : Replacements P) → AllFit fits (arg_values args)
      → KeepsVariants m (arg_values args)
      → (args' : NamedNodes P) × (replace_in_btreemap fits args m ≡ ok args')
  unfolding replace_in_btreemap arg_values
  replace_in_btreemap-total fits union no_args m f v = (no_args, refl)
  replace_in_btreemap-total fits union (arg name node args) m f v =
      let head = replace_in_node-total fits union node m f.0 v.0 in
      let rest = replace_in_btreemap-total fits union args m f.1 v.1 in
      (arg name head.0 rest.0, rw (head.1, rest.1) refl)

  replace_in_slice-total :
      (fits : AnyNode P → Bool)
      → IsUnion fits
      → (nodes : Nodes P) (m : Replacements P) → AllFit fits (node_list nodes)
      → KeepsVariants m (node_list nodes)
      → (nodes' : Nodes P) × (replace_in_slice fits nodes m ≡ ok nodes')
  unfolding replace_in_slice node_list
  replace_in_slice-total fits union no_nodes m f v = (no_nodes, refl)
  replace_in_slice-total fits union (next node nodes) m f v =
      let head = replace_in_node-total fits union node m f.0 v.0 in
      let rest = replace_in_slice-total fits union nodes m f.1 v.1 in
      (next head.0 rest.0, rw (head.1, rest.1) refl)

  kind_with_replacements-total :
      (kind : ComputeMappingKind P) (m : Replacements P)
      → AllFit is_compute_mapping_arg (verification_args kind)
      → KeepsVariants m (verification_args kind)
      → (kind' : ComputeMappingKind P) × (kind_with_replacements kind m ≡ ok kind')
  unfolding kind_with_replacements verification_args
  kind_with_replacements-total (ComputeMappingKind.simple function) m f v = (_, refl)
  kind_with_replacements-total (with_reveal function verification args) m f v =
      let r =
        replace_in_btreemap-total is_compute_mapping_arg is_compute_mapping_arg-IsUnion args m f
          v in
      (with_reveal function verification r.0, rw (r.1) refl)
  kind_with_replacements-total (ComputeMappingKind.third_party_attributable function verification) m
        f v =
      (_, refl)

  KeepsVariants-left :
      (m : Replacements P) (xs ys : List (AnyNode P))
      → KeepsVariants m (xs ++ ys)
      → KeepsVariants m xs
  KeepsVariants-left m [] ys a = tt
  KeepsVariants-left m (x ∷ xs) ys a = (a.0, KeepsVariants-left m xs ys a.1)

  KeepsVariants-right :
      (m : Replacements P) (xs ys : List (AnyNode P))
      → KeepsVariants m (xs ++ ys)
      → KeepsVariants m ys
  KeepsVariants-right m [] ys a = a
  KeepsVariants-right m (x ∷ xs) ys a = KeepsVariants-right m xs ys a.1

  with_replacements-total_apart :
      (i : NodeId) (node : AnyNode P) (m : Replacements P)
      → IsWellTyped node
      → KeepsVariants m (all_args node)
      → KeepsVariants m (dependencies node)
      → (n : AnyNode P) × (with_replacements i node m ≡ ok n) × (variant n ≡ variant node)
  unfolding with_replacements all_args dependencies IsWellTyped variant
  with_replacements-total_apart i (compute_scalar j tag kind args nodes) m w v d =
      let a =
        replace_in_btreemap-total is_compute_scalar_arg is_compute_scalar_arg-IsUnion args m w.0
          v in
      let b = replace_in_slice-total is_dependency is_dependency-IsUnion nodes m w.1 d in
      (compute_scalar i tag kind a.0 b.0, rw (a.1, b.1) refl, refl)
  with_replacements-total_apart i (collect j tag values group nodes) m w v d =
      let a = replace_in_node-total is_collect_arg is_collect_arg-IsUnion values m w.0 v.0 in
      let b = replace_in_slice-total is_dependency is_dependency-IsUnion nodes m w.1 d in
      (collect i tag a.0 group b.0, rw (a.1, b.1) refl, refl)
  with_replacements-total_apart i (compute_mapping j tag args kind nodes) m w v d =
      let a =
        replace_in_btreemap-total is_compute_mapping_arg is_compute_mapping_arg-IsUnion args m w.0
          (KeepsVariants-left m (arg_values args) (verification_args kind) v) in
      let k =
        kind_with_replacements-total kind m w.1
          (KeepsVariants-right m (arg_values args) (verification_args kind) v) in
      let b = replace_in_slice-total is_dependency is_dependency-IsUnion nodes m w.2 d in
      (compute_mapping i tag a.0 k.0 b.0, rw (a.1, k.1, b.1) refl, refl)
  with_replacements-total_apart i (serialize_and_sign_bc j tag function signs adapter name) m w v
        d =
      let a = replace_in_node-total is_broadcast_arg is_broadcast_arg-IsUnion signs m w v.0 in
      (serialize_and_sign_bc i tag function a.0 adapter name, rw (a.1) refl, refl)
  with_replacements-total_apart i (serialize_and_sign_dm j tag function signs adapter name) m w v
        d =
      let a =
        replace_in_node-total is_direct_message_arg is_direct_message_arg-IsUnion signs m w v.0 in
      (serialize_and_sign_dm i tag function a.0 adapter name, rw (a.1) refl, refl)
  with_replacements-total_apart i (deserialize_and_check j tag function reads adapter name) m w v
        d =
      let a = replace_in_node-total is_reception is_reception-IsUnion reads m w v.0 in
      (deserialize_and_check i tag function a.0 adapter name, rw (a.1) refl, refl)
  with_replacements-total_apart i (send_bc j tag sends destinations nodes) m w v d =
      let a = replace_in_node-total is_bc_signature is_bc_signature-IsUnion sends m w.0 v.0 in
      let b = replace_in_slice-total is_dependency is_dependency-IsUnion nodes m w.1 d in
      (send_bc i tag a.0 destinations b.0, rw (a.1, b.1) refl, refl)
  with_replacements-total_apart i (send_dm j tag sends nodes) m w v d =
      let a = replace_in_node-total is_dm_signature is_dm_signature-IsUnion sends m w.0 v.0 in
      let b = replace_in_slice-total is_dependency is_dependency-IsUnion nodes m w.1 d in
      (send_dm i tag a.0 b.0, rw (a.1, b.1) refl, refl)
  with_replacements-total_apart i (send_all j tag values destinations) m w v d =
      let a = replace_in_node-total is_sent_dm is_sent_dm-IsUnion values m w v.0 in
      (send_all i tag a.0 destinations, rw (a.1) refl, refl)
  with_replacements-total_apart i (receive j tag message_name) m w v d = (_, refl, refl)
  with_replacements-total_apart i (scalar_argument j tag name) m w v d = (_, refl, refl)
  with_replacements-total_apart i (merge_scalars j tag left right) m w v d =
      let a =
        replace_in_node-total is_compute_scalar_arg is_compute_scalar_arg-IsUnion left m w.0 v.0 in
      let b =
        replace_in_node-total is_compute_scalar_arg is_compute_scalar_arg-IsUnion right m w.1
          v.1.0 in
      (merge_scalars i tag a.0 b.0, rw (a.1, b.1) refl, refl)

  -- A replacement that keeps the variants of the children of a well-typed node succeeds, and keeps its
  -- variant.
  pub with_replacements-total :
      (i : NodeId) (node : AnyNode P) (m : Replacements P)
      → IsWellTyped node
      → KeepsVariants m (all_args_and_dependencies node)
      → (n : AnyNode P) × (with_replacements i node m ≡ ok n) × (variant n ≡ variant node)
  unfolding all_args_and_dependencies
  with_replacements-total i node m w v =
      with_replacements-total_apart i node m w
        (KeepsVariants-left m (all_args node) (dependencies node) v)
        (KeepsVariants-right m (all_args node) (dependencies node) v)
