-- ===== src/Graph/AnyNode/Replace/Typing.antt =====
-- That `with_replacements` of ayatori/src/graph_representation/specific_nodes.rs replaces the children of
-- a node, and keeps them in the types of its arguments.
use ayatori.Prelude.{
  List, [], ◌∷◌, ◌++◌, Option, none, some, Bool, true, ◌≡◌, ◌⊎◌, inl, inr, refl, sym, ap, ◌∙◌,
  arith, All, map, Bool-cases,
}
use mathlib.Core.Path.{ap₂}
use mathlib.Core.List.{map-append}
use ayatori.Collections.Order.{nat_ord}
use ayatori.Collections.BTreeMap.{get, get_or}
use ayatori.Entities.Errors.{ok, ok_injective, bind-ok}
use ayatori.Entities.Params.{SessionParameters}
use ayatori.Graph.AnyNode.{
  NodeId, AnyNode, compute_scalar, collect, compute_mapping, serialize_and_sign_bc,
  serialize_and_sign_dm, deserialize_and_check, send_bc, send_dm, send_all, receive,
  scalar_argument, merge_scalars, ComputeMappingKind, with_reveal, NamedNodes, no_args, arg, Nodes,
  no_nodes, next, node_id, store_in, arg_values, node_list, verification_args, all_args,
  dependencies,
}
use ayatori.Graph.AnyNode.Unions.{
  is_compute_scalar_arg, is_compute_mapping_arg, is_collect_arg, is_broadcast_arg,
  is_direct_message_arg, is_dependency, is_bc_signature, is_dm_signature, is_reception, is_sent_dm,
}
use ayatori.Graph.AnyNode.Replace.{
  Replacements, replaced, replace_in_node, replace_in_btreemap, replace_in_slice,
  kind_with_replacements, with_replacements,
}

module _ {P : SessionParameters} where
  unfoldable pub substitute : Replacements P → AnyNode P → AnyNode P
  substitute m node = get_or m (node_id node) node

  -- The nodes are all in a union.
  abbrev pub AllFit : (AnyNode P → Bool) → List (AnyNode P) → Type 0
  AllFit fits nodes = All (λ n. fits n ≡ true) nodes

  replaced_lem :
      (fits : AnyNode P → Bool) (node : AnyNode P) (r : Option (AnyNode P)) (n : AnyNode P)
      → replaced fits node r ≡ ok n
      → (n ≡ elim r [ none ↦ node | some v ↦ v ]) × ((fits n ≡ true) ⊎ (n ≡ node))
  unfolding replaced
  replaced_lem fits node none n h = let e = sym (ok_injective h) in (e, inr e)
  replaced_lem fits node (some v) n h = elim (Bool-cases (fits v)) [
    | inl e ↦ let p = sym (ok_injective (rw e at h)) in (p, inl (rw p e))
    | inr e ↦ ground (arith, h, e)
  ]

  replace_in_node_lem :
      (fits : AnyNode P → Bool) (node : AnyNode P) (m : Replacements P) (n : AnyNode P)
      → replace_in_node fits node m ≡ ok n
      → (n ≡ substitute m node) × (fits node ≡ true → fits n ≡ true)
  unfolding replace_in_node substitute get_or
  replace_in_node_lem fits node m n h =
      let p = replaced_lem fits node (get m (node_id node)) n h in
      (p.0, λ f. elim p.1 [ inl e ↦ e | inr e ↦ ap fits e ∙ f ])

  -- What a list of nodes becomes.
  abbrev pub Becomes :
      (AnyNode P → Bool) → Replacements P → List (AnyNode P) → List (AnyNode P) → Type 0
  Becomes fits m nodes new_nodes =
      (new_nodes ≡ map (substitute m) nodes) × (AllFit fits nodes → AllFit fits new_nodes)

  replace_in_btreemap_lem :
      (fits : AnyNode P → Bool) (args : NamedNodes P) (m : Replacements P) (args' : NamedNodes P)
      → replace_in_btreemap fits args m ≡ ok args'
      → Becomes fits m (arg_values args) (arg_values args')
  unfolding replace_in_btreemap arg_values
  replace_in_btreemap_lem fits no_args m args' h = rw (sym (ok_injective h)) (refl, λ a. tt)
  replace_in_btreemap_lem fits (arg name node args) m args' h =
      let p = bind-ok (replace_in_node fits node m) _ args' h in
      let q = bind-ok (replace_in_btreemap fits args m) _ args' p.2 in
      let head = replace_in_node_lem fits node m p.0 p.1 in
      let rest = replace_in_btreemap_lem fits args m q.0 q.1 in
      rw (sym (ok_injective q.2))
        (ap₂ (λ x xs. x ∷ xs) head.0 rest.0, λ a. (head.1 a.0, rest.1 a.1))

  replace_in_slice_lem :
      (fits : AnyNode P → Bool) (nodes : Nodes P) (m : Replacements P) (nodes' : Nodes P)
      → replace_in_slice fits nodes m ≡ ok nodes'
      → Becomes fits m (node_list nodes) (node_list nodes')
  unfolding replace_in_slice node_list
  replace_in_slice_lem fits no_nodes m nodes' h = rw (sym (ok_injective h)) (refl, λ a. tt)
  replace_in_slice_lem fits (next node nodes) m nodes' h =
      let p = bind-ok (replace_in_node fits node m) _ nodes' h in
      let q = bind-ok (replace_in_slice fits nodes m) _ nodes' p.2 in
      let head = replace_in_node_lem fits node m p.0 p.1 in
      let rest = replace_in_slice_lem fits nodes m q.0 q.1 in
      rw (sym (ok_injective q.2))
        (ap₂ (λ x xs. x ∷ xs) head.0 rest.0, λ a. (head.1 a.0, rest.1 a.1))

  -- Each argument and dependency of the node is in the type that the node asks for.
  unfoldable pub IsWellTyped : AnyNode P → Type 0
  IsWellTyped (compute_scalar i tag kind args nodes) =
      AllFit is_compute_scalar_arg (arg_values args) × AllFit is_dependency (node_list nodes)
  IsWellTyped (collect i tag values group nodes) =
      (is_collect_arg values ≡ true) × AllFit is_dependency (node_list nodes)
  IsWellTyped (compute_mapping i tag args kind nodes) =
      AllFit is_compute_mapping_arg (arg_values args)
      × AllFit is_compute_mapping_arg (verification_args kind)
      × AllFit is_dependency (node_list nodes)
  IsWellTyped (serialize_and_sign_bc i tag function signs adapter name) =
      is_broadcast_arg signs ≡ true
  IsWellTyped (serialize_and_sign_dm i tag function signs adapter name) =
      is_direct_message_arg signs ≡ true
  IsWellTyped (deserialize_and_check i tag function reads adapter name) = is_reception reads ≡ true
  IsWellTyped (send_bc i tag sends destinations nodes) =
      (is_bc_signature sends ≡ true) × AllFit is_dependency (node_list nodes)
  IsWellTyped (send_dm i tag sends nodes) =
      (is_dm_signature sends ≡ true) × AllFit is_dependency (node_list nodes)
  IsWellTyped (send_all i tag values destinations) = is_sent_dm values ≡ true
  IsWellTyped (receive i tag message_name) = Unit
  IsWellTyped (scalar_argument i tag name) = Unit
  IsWellTyped (merge_scalars i tag left right) =
      (is_compute_scalar_arg left ≡ true) × (is_compute_scalar_arg right ≡ true)

  kind_with_replacements_lem :
      (kind : ComputeMappingKind P) (m : Replacements P) (kind' : ComputeMappingKind P)
      → kind_with_replacements kind m ≡ ok kind'
      → Becomes is_compute_mapping_arg m (verification_args kind) (verification_args kind')
  unfolding kind_with_replacements verification_args
  kind_with_replacements_lem (ComputeMappingKind.simple function) m kind' h =
      rw (sym (ok_injective h)) (refl, λ a. tt)
  kind_with_replacements_lem (with_reveal function verification args) m kind' h =
      let p = bind-ok (replace_in_btreemap is_compute_mapping_arg args m) _ kind' h in
      rw (sym (ok_injective p.2)) (replace_in_btreemap_lem is_compute_mapping_arg args m p.0 p.1)
  kind_with_replacements_lem (ComputeMappingKind.third_party_attributable function verification) m
        kind' h =
      rw (sym (ok_injective h)) (refl, λ a. tt)

  -- The node stands at a new address under its tag, with each child substituted.
  abbrev IsSubstituted : NodeId → Replacements P → AnyNode P → AnyNode P → Type 0
  IsSubstituted i m node new_node =
      (node_id new_node ≡ i)
      × (store_in new_node ≡ store_in node)
      × (all_args new_node ≡ map (substitute m) (all_args node))
      × (dependencies new_node ≡ map (substitute m) (dependencies node))

  one : {x y : AnyNode P} → x ≡ y → Path (List (AnyNode P)) (x ∷ []) (y ∷ [])
  one e = ap (λ z. z ∷ []) e

  with_replacements_lem :
      (i : NodeId) (node : AnyNode P) (m : Replacements P) (new_node : AnyNode P)
      → with_replacements i node m ≡ ok new_node
      → IsSubstituted i m node new_node × (IsWellTyped node → IsWellTyped new_node)
  unfolding with_replacements node_id store_in all_args dependencies IsWellTyped node_list
  with_replacements_lem i (compute_scalar j tag kind args nodes) m n h =
      let p = bind-ok (replace_in_btreemap is_compute_scalar_arg args m) _ n h in
      let q = bind-ok (replace_in_slice is_dependency nodes m) _ n p.2 in
      let a = replace_in_btreemap_lem is_compute_scalar_arg args m p.0 p.1 in
      let b = replace_in_slice_lem is_dependency nodes m q.0 q.1 in
      rw (sym (ok_injective q.2)) ((refl, refl, a.0, b.0), λ w. (a.1 w.0, b.1 w.1))
  with_replacements_lem i (collect j tag values group nodes) m n h =
      let p = bind-ok (replace_in_node is_collect_arg values m) _ n h in
      let q = bind-ok (replace_in_slice is_dependency nodes m) _ n p.2 in
      let a = replace_in_node_lem is_collect_arg values m p.0 p.1 in
      let b = replace_in_slice_lem is_dependency nodes m q.0 q.1 in
      rw (sym (ok_injective q.2)) ((refl, refl, one a.0, b.0), λ w. (a.1 w.0, b.1 w.1))
  with_replacements_lem i (compute_mapping j tag args kind nodes) m n h =
      let p = bind-ok (replace_in_btreemap is_compute_mapping_arg args m) _ n h in
      let k = bind-ok (kind_with_replacements kind m) _ n p.2 in
      let q = bind-ok (replace_in_slice is_dependency nodes m) _ n k.2 in
      let a = replace_in_btreemap_lem is_compute_mapping_arg args m p.0 p.1 in
      let c = kind_with_replacements_lem kind m k.0 k.1 in
      let b = replace_in_slice_lem is_dependency nodes m q.0 q.1 in
      rw (sym (ok_injective q.2)) (
        (
          refl,
          refl,
          ap₂ (λ xs ys. xs ++ ys) a.0 c.0
              ∙ sym (map-append (substitute m) (arg_values args) (verification_args kind)),
          b.0,
        ),
        λ w. (a.1 w.0, c.1 w.1, b.1 w.2),
      )
  with_replacements_lem i (serialize_and_sign_bc j tag function signs adapter name) m n h =
      let p = bind-ok (replace_in_node is_broadcast_arg signs m) _ n h in
      let a = replace_in_node_lem is_broadcast_arg signs m p.0 p.1 in
      rw (sym (ok_injective p.2)) ((refl, refl, one a.0, refl), a.1)
  with_replacements_lem i (serialize_and_sign_dm j tag function signs adapter name) m n h =
      let p = bind-ok (replace_in_node is_direct_message_arg signs m) _ n h in
      let a = replace_in_node_lem is_direct_message_arg signs m p.0 p.1 in
      rw (sym (ok_injective p.2)) ((refl, refl, one a.0, refl), a.1)
  with_replacements_lem i (deserialize_and_check j tag function reads adapter name) m n h =
      let p = bind-ok (replace_in_node is_reception reads m) _ n h in
      let a = replace_in_node_lem is_reception reads m p.0 p.1 in
      rw (sym (ok_injective p.2)) ((refl, refl, one a.0, refl), a.1)
  with_replacements_lem i (send_bc j tag sends destinations nodes) m n h =
      let p = bind-ok (replace_in_node is_bc_signature sends m) _ n h in
      let q = bind-ok (replace_in_slice is_dependency nodes m) _ n p.2 in
      let a = replace_in_node_lem is_bc_signature sends m p.0 p.1 in
      let b = replace_in_slice_lem is_dependency nodes m q.0 q.1 in
      rw (sym (ok_injective q.2)) ((refl, refl, one a.0, b.0), λ w. (a.1 w.0, b.1 w.1))
  with_replacements_lem i (send_dm j tag sends nodes) m n h =
      let p = bind-ok (replace_in_node is_dm_signature sends m) _ n h in
      let q = bind-ok (replace_in_slice is_dependency nodes m) _ n p.2 in
      let a = replace_in_node_lem is_dm_signature sends m p.0 p.1 in
      let b = replace_in_slice_lem is_dependency nodes m q.0 q.1 in
      rw (sym (ok_injective q.2)) ((refl, refl, one a.0, b.0), λ w. (a.1 w.0, b.1 w.1))
  with_replacements_lem i (send_all j tag values destinations) m n h =
      let p = bind-ok (replace_in_node is_sent_dm values m) _ n h in
      let a = replace_in_node_lem is_sent_dm values m p.0 p.1 in
      rw (sym (ok_injective p.2)) ((refl, refl, one a.0, refl), a.1)
  with_replacements_lem i (receive j tag message_name) m n h =
      rw (sym (ok_injective h)) ((refl, refl, refl, refl), λ w. tt)
  with_replacements_lem i (scalar_argument j tag name) m n h =
      rw (sym (ok_injective h)) ((refl, refl, refl, refl), λ w. tt)
  with_replacements_lem i (merge_scalars j tag left right) m n h =
      let p = bind-ok (replace_in_node is_compute_scalar_arg left m) _ n h in
      let q = bind-ok (replace_in_node is_compute_scalar_arg right m) _ n p.2 in
      let a = replace_in_node_lem is_compute_scalar_arg left m p.0 p.1 in
      let b = replace_in_node_lem is_compute_scalar_arg right m q.0 q.1 in
      rw (sym (ok_injective q.2))
        ((refl, refl, ap₂ (λ x y. x ∷ y ∷ []) a.0 b.0, refl), λ w. (a.1 w.0, b.1 w.1))

  -- A node whose arguments and dependencies are in the types that it asks for, and that is taken through a
  -- replacement, stands at the new address under its old tag. Each of its arguments and dependencies is
  -- the node that the replacement has for its address, or as it was where it has none, in their old
  -- order, and they are in the types that the node asks for.
  pub with_replacements-substitute :
      (i : NodeId) (node : AnyNode P) (m : Replacements P) (new_node : AnyNode P)
      → IsWellTyped node
      → with_replacements i node m ≡ ok new_node
      → (node_id new_node ≡ i)
        × (store_in new_node ≡ store_in node)
        × (all_args new_node ≡ map (λ child. get_or m (node_id child) child) (all_args node))
        × (dependencies new_node
            ≡ map (λ child. get_or m (node_id child) child) (dependencies node))
        × IsWellTyped new_node
  unfolding substitute
  with_replacements-substitute i node m new_node w h =
      let (substituted, typed) = with_replacements_lem i node m new_node h in
      (substituted.0, substituted.1, substituted.2, substituted.3, typed w)
