-- ===== src/Flat/Ruleset/Groups/Known.antt =====
-- That `PropagatedGroups` of ayatori/src/flat_representation/ruleset.rs knows the parties of the arguments of
-- each node that it has been given.
use ayatori.Prelude.{List, [], ◌∷◌, ◌≡◌, refl, ◌∙◌, arith, All}
use ayatori.Collections.Order.{Ord, nat_ord}
use ayatori.Collections.BTreeSet.{BTreeSet, extend}
use ayatori.Collections.BTreeMap.{get-insert, get_or}
use ayatori.Entities.Tags.{MappingTag, mapping_tag_ord, ScalarTag, AnyTag, scalar, mapping}
use ayatori.Entities.Errors.{Result, ok, RuntimeError}
use ayatori.Entities.Params.{SessionParameters}
use ayatori.Graph.AnyNode.{
  AnyNode, compute_scalar, collect, compute_mapping, serialize_and_sign_bc, serialize_and_sign_dm,
  deserialize_and_check, send_bc, send_dm, send_all, receive, scalar_argument, merge_scalars,
  store_in, all_args, arg_values,
}
use ayatori.Graph.AnyNode.Unions.Tags.{
  IsScalarNode, scalar_arg_tag, broadcast_arg_tag, bc_signature_tag, scalar_args_tags,
  collect_arg_tag, sent_dm_arg_tag,
}
use ayatori.Graph.AnyNode.Replace.Typing.{IsWellTyped}
use ayatori.Flat.Ruleset.Groups.{
  PropagatedGroups, get, insert, insert_any, insert_args, propagate, add_node,
}

module _ {Verifier : Type 0} where
  abbrev pub IsKnown : PropagatedGroups Verifier → MappingTag → Type 0
  IsKnown groups tag = (ids : BTreeSet Verifier) × (get groups tag ≡ ok ids)

  -- What is known of the first is known of the second.
  abbrev pub Grows : PropagatedGroups Verifier → PropagatedGroups Verifier → Type 0
  Grows g h = (tag : MappingTag) → IsKnown g tag → IsKnown h tag

module _ {Verifier : Type 0} ⦃o : Ord Verifier⦄ where
  insert_here :
      (groups : PropagatedGroups Verifier) (tag s : MappingTag) (ids : BTreeSet Verifier)
      → s ≡ tag
      → IsKnown (insert groups tag ids) s
  unfolding get insert
  insert_here groups tag s ids e =
      let all = extend (get_or groups tag []) ids in
      (all, ground (arith, get-insert groups tag s all, e))

  insert_elsewhere :
      (groups : PropagatedGroups Verifier) (tag s : MappingTag) (ids : BTreeSet Verifier)
      → ¬ (s ≡ tag)
      → get (insert groups tag ids) s ≡ get groups s
  unfolding get insert
  insert_elsewhere groups tag s ids p =
      ground (arith, get-insert groups tag s (extend (get_or groups tag []) ids), p)

  insert-Grows :
      (groups : PropagatedGroups Verifier) (tag : MappingTag) (ids : BTreeSet Verifier)
      → Grows groups (insert groups tag ids)
  insert-Grows groups tag ids s k = elim (mapping_tag_ord.dec s tag) [
    | yes p ↦ insert_here groups tag s ids p
    | no p ↦ (k.0, insert_elsewhere groups tag s ids p ∙ k.1)
  ]

  any_tag :
      (groups : PropagatedGroups Verifier) (tag : AnyTag) (ids : BTreeSet Verifier)
      → Grows groups (insert_any groups tag ids)
        × ((s : MappingTag) → tag ≡ mapping s → IsKnown (insert_any groups tag ids) s)
  unfolding insert_any
  any_tag groups (scalar tag) ids = (λ s k. k, λ s e. ground (arith, e))
  any_tag groups (mapping tag) ids =
      (insert-Grows groups tag ids, λ s e. insert_here groups tag s ids (ground (arith, e)))

module _ {P : SessionParameters} where
  -- The tag of the node is known, where it is that of a mapping.
  abbrev pub IsKnownNode : PropagatedGroups P.Verifier → AnyNode P → Type 0
  IsKnownNode groups n = (tag : MappingTag) → store_in n ≡ mapping tag → IsKnown groups tag

module _ {P : SessionParameters} ⦃o : Ord P.Verifier⦄ where
  insert_any-Grows :
      (groups : PropagatedGroups P.Verifier) (n : AnyNode P) (ids : BTreeSet P.Verifier)
      → Grows groups (insert_any groups (store_in n) ids)
        × IsKnownNode (insert_any groups (store_in n) ids) n
  insert_any-Grows groups n ids = any_tag groups (store_in n) ids

  insert_args-Grows :
      (groups : PropagatedGroups P.Verifier) (nodes : List (AnyNode P)) (ids : BTreeSet P.Verifier)
      → Grows groups (insert_args groups nodes ids)
        × All (IsKnownNode (insert_args groups nodes ids)) nodes
  unfolding insert_args
  insert_args-Grows groups [] ids = (λ s k. k, tt)
  insert_args-Grows groups (n ∷ nodes) ids =
      let first = insert_any-Grows groups n ids in
      let rest = insert_args-Grows (insert_any groups (store_in n) ids) nodes ids in
      (λ s k. rest.0 s (first.0 s k), (λ tag e. rest.0 tag (first.1 tag e), rest.1))

  -- What the loop does with one node.
  abbrev pub Added :
      PropagatedGroups P.Verifier
      → AnyNode P
      → Result RuntimeError (PropagatedGroups P.Verifier)
      → Type 0
  Added groups n r =
      (next : PropagatedGroups P.Verifier) × (r ≡ ok next)
      × Grows groups next
      × All (IsKnownNode next) (all_args n)

  propagate-mapping :
      (groups : PropagatedGroups P.Verifier) (n : AnyNode P) (tag : MappingTag)
      → IsKnown groups tag
      → Added groups n (propagate groups (mapping tag) (all_args n))
  unfolding propagate
  propagate-mapping groups n tag k =
      let a = insert_args-Grows groups (all_args n) k.0 in
      (insert_args groups (all_args n) k.0, rw (k.1) refl, a.0, a.1)

  IsScalarNode-known :
      (groups : PropagatedGroups P.Verifier) (nodes : List (AnyNode P))
      → All IsScalarNode nodes
      → All (IsKnownNode groups) nodes
  IsScalarNode-known groups [] a = tt
  IsScalarNode-known groups (n ∷ nodes) a =
      (λ tag e. absurd (a.0 tag e), IsScalarNode-known groups nodes a.1)

  propagate-scalar :
      (groups : PropagatedGroups P.Verifier) (n : AnyNode P) (tag : ScalarTag)
      → All IsScalarNode (all_args n)
      → Added groups n (propagate groups (scalar tag) (all_args n))
  unfolding propagate
  propagate-scalar groups n tag a =
      (groups, refl, λ s k. k, IsScalarNode-known groups (all_args n) a)

  -- A node whose own parties are known makes those of its arguments known.
  pub add_node-total :
      (groups : PropagatedGroups P.Verifier) (n : AnyNode P)
      → IsWellTyped n
      → IsKnownNode groups n
      → Added groups n (add_node groups n)
  unfolding add_node all_args store_in IsWellTyped
  add_node-total groups (collect i tag values group nodes) w k =
      let c = collect_arg_tag values w.0 in
      (
        insert groups c.0 (group.ids),
        rw (c.1) refl,
        insert-Grows groups c.0 (group.ids),
        (λ s e. insert_here groups c.0 s (group.ids) (ground (arith, e, c.2)), tt),
      )
  add_node-total groups (send_all i tag values destinations) w k =
      let c = sent_dm_arg_tag values w in
      (
        insert groups (MappingTag.sent c.0) destinations,
        rw (c.1) refl,
        insert-Grows groups (MappingTag.sent c.0) destinations,
        (
          λ s e. insert_here groups (MappingTag.sent c.0) s destinations (ground (arith, e, c.2)),
          tt,
        ),
      )
  add_node-total groups (compute_scalar i tag kind args nodes) w k =
      propagate-scalar groups (compute_scalar i tag kind args nodes) (ScalarTag.computed tag)
        (scalar_args_tags (arg_values args) w.0)
  add_node-total groups (serialize_and_sign_bc i tag f signs adapter name) w k =
      propagate-scalar groups (serialize_and_sign_bc i tag f signs adapter name)
        (ScalarTag.local_signed tag) (broadcast_arg_tag signs w, tt)
  add_node-total groups (send_bc i tag sends destinations nodes) w k =
      propagate-scalar groups (send_bc i tag sends destinations nodes) (ScalarTag.sent tag)
        (bc_signature_tag sends w.0, tt)
  add_node-total groups (scalar_argument i tag name) w k =
      propagate-scalar groups (scalar_argument i tag name) (ScalarTag.argument tag) tt
  add_node-total groups (merge_scalars i tag left right) w k =
      propagate-scalar groups (merge_scalars i tag left right) (ScalarTag.merged tag)
        (scalar_arg_tag left w.0, (scalar_arg_tag right w.1, tt))
  add_node-total groups (compute_mapping i tag args kind nodes) w k =
      propagate-mapping groups (compute_mapping i tag args kind nodes) (MappingTag.computed tag)
        (k (MappingTag.computed tag) refl)
  add_node-total groups (serialize_and_sign_dm i tag f signs adapter name) w k =
      propagate-mapping groups (serialize_and_sign_dm i tag f signs adapter name)
        (MappingTag.local_signed tag) (k (MappingTag.local_signed tag) refl)
  add_node-total groups (deserialize_and_check i tag f reads adapter name) w k =
      propagate-mapping groups (deserialize_and_check i tag f reads adapter name)
        (MappingTag.received tag) (k (MappingTag.received tag) refl)
  add_node-total groups (send_dm i tag sends nodes) w k =
      propagate-mapping groups (send_dm i tag sends nodes) (MappingTag.sent tag)
        (k (MappingTag.sent tag) refl)
  add_node-total groups (receive i tag name) w k =
      propagate-mapping groups (receive i tag name) (MappingTag.remote_signed tag)
        (k (MappingTag.remote_signed tag) refl)
