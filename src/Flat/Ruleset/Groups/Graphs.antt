-- ===== src/Flat/Ruleset/Groups/Graphs.antt =====
-- That `PropagatedGroups::new` of ayatori/src/flat_representation/ruleset.rs succeeds on a graph, and then
-- knows the parties of each mapping node.
use ayatori.Prelude.{List, [], ◌∷◌, ◌++◌, ◌≡◌, ◌⊎◌, inl, inr, refl, true, sym, ap, subst, All}
use ayatori.Collections.Order.{Ord, nat_ord}
use ayatori.Entities.Tags.{MappingTag, mapping}
use ayatori.Entities.Errors.{ok}
use ayatori.Entities.Params.{SessionParameters}
use ayatori.Graph.Traversal.{Reach, here, below, IsMember, push_all}
use ayatori.Graph.Traversal.Reached.{HasDistinctIds, All-IsMember, All-of_members}
use ayatori.Graph.Traversal.RootsFirst.{
  IsRootsFirst, push_all-IsRootsFirst, IsMember-push_all, push_all-IsMember,
}
use ayatori.Graph.AnyNode.{
  store_in, AnyNode, compute_scalar, collect, compute_mapping, serialize_and_sign_bc,
  serialize_and_sign_dm, deserialize_and_check, send_bc, send_dm, send_all, receive,
  scalar_argument, merge_scalars, node_list, node_id, all_args, dependencies,
  all_args_and_dependencies,
}
use ayatori.Graph.AnyNode.Unions.{is_output_node}
use ayatori.Graph.AnyNode.Unions.Tags.{IsScalarNode, output_node_tag, dependencies_tags}
use ayatori.Graph.AnyNode.Replace.Typing.{IsWellTyped}
use ayatori.Graph.AnyNode.Mutation.Infallible.{IsWellTypedTree}
use ayatori.Graph.AnyNode.Tree.{flattened_leaves_first, flattened_roots_first}
use ayatori.Graph.AnyNode.Tree.Order.{flattened_leaves_first-IsLeavesFirst}
use ayatori.Collections.BTreeSet.{BTreeSet}
use ayatori.Flat.Ruleset.Groups
use ayatori.Flat.Ruleset.Groups.{PropagatedGroups, add_nodes, new}
use ayatori.Flat.Ruleset.Groups.Known.{Grows, IsKnownNode, add_node-total}

module _ {P : SessionParameters} where
  IsMember-of_append :
      (xs ys : List (AnyNode P)) (n : AnyNode P)
      → IsMember n (xs ++ ys)
      → IsMember n xs ⊎ IsMember n ys
  IsMember-of_append [] ys n h = inr h
  IsMember-of_append (x ∷ xs) ys n (inl e) = inl (inl e)
  IsMember-of_append (x ∷ xs) ys n (inr m) = elim (IsMember-of_append xs ys n m) [
    | inl k ↦ inl (inr k)
    | inr k ↦ inr k
  ]

  -- The dependencies of a well-typed node are no mappings.
  well_typed_dependencies : (n : AnyNode P) → IsWellTyped n → All IsScalarNode (dependencies n)
  unfolding dependencies IsWellTyped
  well_typed_dependencies (compute_scalar i tag kind args nodes) w =
      dependencies_tags (node_list nodes) w.1
  well_typed_dependencies (collect i tag values group nodes) w =
      dependencies_tags (node_list nodes) w.1
  well_typed_dependencies (compute_mapping i tag args kind nodes) w =
      dependencies_tags (node_list nodes) w.2
  well_typed_dependencies (serialize_and_sign_bc i tag f signs adapter n) w = tt
  well_typed_dependencies (serialize_and_sign_dm i tag f signs adapter n) w = tt
  well_typed_dependencies (deserialize_and_check i tag f reads adapter n) w = tt
  well_typed_dependencies (send_bc i tag sends destinations nodes) w =
      dependencies_tags (node_list nodes) w.1
  well_typed_dependencies (send_dm i tag sends nodes) w = dependencies_tags (node_list nodes) w.1
  well_typed_dependencies (send_all i tag values destinations) w = tt
  well_typed_dependencies (receive i tag n) w = tt
  well_typed_dependencies (scalar_argument i tag n) w = tt
  well_typed_dependencies (merge_scalars i tag left right) w = tt

  grown :
      (groups next : PropagatedGroups P.Verifier)
      → Grows groups next
      → (nodes : List (AnyNode P)) → All (IsKnownNode groups) nodes
      → All (IsKnownNode next) nodes
  grown groups next grows [] a = tt
  grown groups next grows (n ∷ nodes) a =
      (λ tag e. grows tag (a.0 tag e), grown groups next grows nodes a.1)

module _ {P : SessionParameters} ⦃o : Ord P.Verifier⦄ (root : AnyNode P) where
  -- Every argument of a node that is not in the list any more is known.
  abbrev Covers : PropagatedGroups P.Verifier → List (AnyNode P) → Type 0
  Covers groups nodes =
      (p : AnyNode P)
      → Reach all_args_and_dependencies root p
      → ¬ (IsMember p nodes)
      → All (IsKnownNode groups) (all_args p)

  -- A node whose parents are not in the list any more is known.
  known_below :
      is_output_node root ≡ true
      → IsWellTypedTree root
      → (groups : PropagatedGroups P.Verifier) (nodes : List (AnyNode P)) → Covers groups nodes
      → (n : AnyNode P)
      → ((p : AnyNode P) → IsMember n (all_args_and_dependencies p) → ¬ (IsMember p nodes))
      → Reach all_args_and_dependencies root n
      → IsKnownNode groups n
  unfolding all_args_and_dependencies
  known_below output typed groups nodes covers n done here tag e =
      absurd (output_node_tag root output tag e)
  known_below output typed groups nodes covers n done (below {m = m} r k) tag e =
      elim (IsMember-of_append (all_args m) (dependencies m) n k) [
        | inl a ↦ All-IsMember (IsKnownNode groups) (all_args m) n (covers m r (done m k)) a tag e
        | inr d ↦ absurd (
            All-IsMember IsScalarNode (dependencies m) n (well_typed_dependencies m (typed m r)) d
              tag e)
      ]

  Covers-next :
      HasDistinctIds node_id all_args_and_dependencies root
      → (groups next : PropagatedGroups P.Verifier) (n : AnyNode P) (nodes : List (AnyNode P))
      → Reach all_args_and_dependencies root n
      → Covers groups (n ∷ nodes)
      → Grows groups next
      → All (IsKnownNode next) (all_args n)
      → Covers next nodes
  Covers-next distinct groups next n nodes reached covers grows own p r out =
      elim (nat_ord.dec (node_id p) (node_id n)) [
        | yes e ↦
            subst (λ q. All (IsKnownNode next) (all_args q)) (sym (distinct p n r reached e)) own
        | no e ↦
            grown groups next grows (all_args p)
              (covers p r (λ m. elim m [ inl q ↦ e (ap node_id q) | inr k ↦ out k ]))
      ]

  add_nodes-total :
      HasDistinctIds node_id all_args_and_dependencies root
      → is_output_node root ≡ true
      → IsWellTypedTree root
      → (groups : PropagatedGroups P.Verifier) (nodes : List (AnyNode P))
      → All (Reach all_args_and_dependencies root) nodes
      → IsRootsFirst all_args_and_dependencies nodes
      → Covers groups nodes
      → (last : PropagatedGroups P.Verifier) × (add_nodes groups nodes ≡ ok last) × Covers last []
  unfolding add_nodes
  add_nodes-total distinct output typed groups [] reached first covers = (groups, refl, covers)
  add_nodes-total distinct output typed groups (n ∷ nodes) reached first covers =
      let known = known_below output typed groups (n ∷ nodes) covers n first.0 reached.0 in
      let added = add_node-total groups n (typed n reached.0) known in
      let rest =
        add_nodes-total distinct output typed added.0 nodes reached.1 first.1
          (Covers-next distinct groups added.0 n nodes reached.0 covers added.2 added.3) in
      (rest.0, rw (added.1) (rest.1), rest.2)

  pub new_knows :
      HasDistinctIds node_id all_args_and_dependencies root
      → is_output_node root ≡ true
      → IsWellTypedTree root
      → (groups : PropagatedGroups P.Verifier) × (new root ≡ ok groups)
        × ((n : AnyNode P) → Reach all_args_and_dependencies root n → IsKnownNode groups n)
  unfolding new flattened_roots_first
  new_knows distinct output typed =
      let ordered = flattened_leaves_first-IsLeavesFirst root distinct in
      let leaves = flattened_leaves_first root in
      let reached =
        All-of_members (Reach all_args_and_dependencies root) (push_all [] leaves) (λ n m.
          (ordered.1 n).0
            (elim (IsMember-push_all [] leaves n m) [ inl k ↦ absurd k | inr k ↦ k ])) in
      let run =
        add_nodes-total distinct output typed [] (push_all [] leaves) reached
          (push_all-IsRootsFirst node_id all_args_and_dependencies [] [] leaves tt tt ordered.0)
          (λ p r out. absurd (out (push_all-IsMember [] leaves p (inr ((ordered.1 p).1 r))))) in
      (run.0, run.1, λ n r. known_below output typed run.0 [] run.2 n (λ p k m. m) r)

  -- Where no two nodes of the graph of an output node have the same address and the graph is well-typed,
  -- the parties of the mapping nodes are found: no look-up fails on the way, and at the end each mapping
  -- node of the graph has an entry.
  pub new_knows_mappings :
      HasDistinctIds node_id all_args_and_dependencies root
      → is_output_node root ≡ true
      → IsWellTypedTree root
      → (n : AnyNode P) (tag : MappingTag) → Reach all_args_and_dependencies root n
      → store_in n ≡ mapping tag
      → (groups : PropagatedGroups P.Verifier) × (new root ≡ ok groups)
        × (ids : BTreeSet P.Verifier) × (Groups.get groups tag ≡ ok ids)
  new_knows_mappings distinct output typed n tag r e =
      let found = new_knows distinct output typed in
      let entry = found.2 n r tag e in (found.0, found.1, entry.0, entry.1)
