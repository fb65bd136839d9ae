-- ===== src/Flat/Ruleset/Build/Graphs.antt =====
-- That `Ruleset::new` of ayatori/src/flat_representation/ruleset.rs succeeds on the graphs that the
-- constructors make.
use ayatori.Prelude.{
  ℕ, String, List, [], ◌∷◌, ◌++◌, true, ◌≡◌, inl, inr, refl, sym, ap, ◌∙◌, arith, All,
}
use ayatori.Collections.Order.{Ord, nat_ord}
use ayatori.Collections.BTreeSet.{BTreeSet, contains, contains-insert}
use ayatori.Collections.BTreeSet
use ayatori.Entities.Tags.{FullName, full_name_ord}
use ayatori.Entities.Errors.{ok}
use ayatori.Entities.Params.{SessionParameters}
use ayatori.Graph.Traversal.{Reach, below, IsMember}
use ayatori.Graph.Traversal.LeavesFirst.{IsLeavesFirst}
use ayatori.Graph.Traversal.Reached.{HasDistinctIds, All-of_members, All-IsMember, none_emitted}
use ayatori.Graph.AnyNode.{
  AnyNode, compute_scalar, collect, compute_mapping, serialize_and_sign_bc, serialize_and_sign_dm,
  deserialize_and_check, send_bc, send_dm, send_all, receive, scalar_argument, merge_scalars,
  node_id, all_args, dependencies, all_args_and_dependencies,
}
use ayatori.Graph.AnyNode.Unions.{is_output_node}
use ayatori.Graph.AnyNode.Mutation.Infallible.{IsWellTypedTree}
use ayatori.Graph.AnyNode.Tree.{flattened_leaves_first}
use ayatori.Graph.AnyNode.Tree.Order.{flattened_leaves_first-IsLeavesFirst}
use ayatori.Flat.Ruleset.{Ruleset}
use ayatori.Flat.Ruleset.Groups.{PropagatedGroups, get_on_error}
use ayatori.Flat.Ruleset.Groups.Known.{IsKnownNode}
use ayatori.Flat.Ruleset.Groups.Graphs
use ayatori.Flat.Ruleset.Build.{add_rules, new}
use ayatori.Flat.Ruleset.Building.{Building, nothing_built, output_tag_of}
use ayatori.Flat.Ruleset.Build.Total.{
  HasItsMessages, IsExpected, IsServed, add_rule-total, message_received,
}

module _ {P : SessionParameters} where
  output_tag-total :
      (root : AnyNode P)
      → is_output_node root ≡ true
      → (tag : FullName) × (output_tag_of root ≡ ok tag)
  unfolding is_output_node output_tag_of
  output_tag-total (compute_scalar i tag kind args nodes) h = (tag, refl)
  output_tag-total (collect i tag values group nodes) h = absurd (ground (arith, h))
  output_tag-total (compute_mapping i tag args kind nodes) h = absurd (ground (arith, h))
  output_tag-total (serialize_and_sign_bc i tag f signs adapter n) h = absurd (ground (arith, h))
  output_tag-total (serialize_and_sign_dm i tag f signs adapter n) h = absurd (ground (arith, h))
  output_tag-total (deserialize_and_check i tag f reads adapter n) h = absurd (ground (arith, h))
  output_tag-total (send_bc i tag sends destinations nodes) h = absurd (ground (arith, h))
  output_tag-total (send_dm i tag sends nodes) h = absurd (ground (arith, h))
  output_tag-total (send_all i tag values destinations) h = absurd (ground (arith, h))
  output_tag-total (receive i tag n) h = absurd (ground (arith, h))
  output_tag-total (scalar_argument i tag n) h = absurd (ground (arith, h))
  output_tag-total (merge_scalars i tag left right) h = absurd (ground (arith, h))

  append-IsMember :
      (xs ys : List (AnyNode P)) (n : AnyNode P) → IsMember n xs → IsMember n (xs ++ ys)
  append-IsMember [] ys n h = absurd h
  append-IsMember (x ∷ xs) ys n (inl e) = inl e
  append-IsMember (x ∷ xs) ys n (inr m) = inr (append-IsMember xs ys n m)

module _ {P : SessionParameters} ⦃o : Ord P.Verifier⦄ (root : AnyNode P) where
  -- The receptions that were returned are served.
  abbrev Serves : BTreeSet ℕ → Building P → Type 0
  Serves emitted b =
      (c : AnyNode P)
      → Reach all_args_and_dependencies root c
      → contains emitted (node_id c) ≡ true
      → IsServed (b.expected_messages) c

  Serves-next :
      HasDistinctIds node_id all_args_and_dependencies root
      → (emitted : BTreeSet ℕ) (b next : Building P) (n : AnyNode P)
      → Reach all_args_and_dependencies root n
      → Serves emitted b
      → ((name : FullName)
          → IsExpected (b.expected_messages) name
          → IsExpected (next.expected_messages) name)
      → IsServed (next.expected_messages) n
      → Serves (BTreeSet.insert emitted (node_id n)) next
  Serves-next distinct emitted b next n reached serves grows own c r h name m =
      elim (nat_ord.dec (node_id c) (node_id n)) [
        | yes p ↦ own name (ap message_received (sym (distinct c n r reached p)) ∙ m)
        | no p ↦ grows name (
            serves c r (ground (arith, contains-insert emitted (node_id n) (node_id c), h, p)) name
              m)
      ]

  add_rules-total :
      HasDistinctIds node_id all_args_and_dependencies root
      → IsWellTypedTree root
      → ((n : AnyNode P) → Reach all_args_and_dependencies root n → HasItsMessages n)
      → (groups : PropagatedGroups P.Verifier)
      → ((n : AnyNode P) → Reach all_args_and_dependencies root n → IsKnownNode groups n)
      → (private_inputs : BTreeSet String) (emitted : BTreeSet ℕ) (b : Building P)
        (nodes : List (AnyNode P))
      → All (Reach all_args_and_dependencies root) nodes
      → IsLeavesFirst node_id all_args_and_dependencies emitted nodes
      → Serves emitted b
      → (last : Building P) × (add_rules groups private_inputs b nodes ≡ ok last)
  unfolding add_rules all_args_and_dependencies
  add_rules-total distinct typed named groups known private_inputs emitted b [] reached first
        serves =
      (b, refl)
  add_rules-total distinct typed named groups known private_inputs emitted b (n ∷ nodes) reached
        first serves =
      let served = All-of_members (IsServed (b.expected_messages)) (all_args n) (λ c k.
        serves c (below reached.0 (append-IsMember (all_args n) (dependencies n) c k)) (
          All-IsMember (λ j. contains emitted (node_id j) ≡ true) (all_args_and_dependencies n) c
            first.1 (append-IsMember (all_args n) (dependencies n) c k))) in
      let rule =
        add_rule-total groups (get_on_error n private_inputs) b n (typed n reached.0)
          (named n reached.0) (known n reached.0) served in
      let rest =
        add_rules-total distinct typed named groups known private_inputs
          (BTreeSet.insert emitted (node_id n)) rule.0 nodes reached.1 first.2
          (Serves-next distinct emitted b rule.0 n reached.0 serves rule.2 rule.3) in
      (rest.0, rw (rule.1) (rest.1))

  -- The rules of the graph of an output node can be made where no two of its nodes have the same address,
  -- each argument and dependency of a node is in the type that the node asks for, and a node that
  -- deserializes messages reads the reception of the messages of its own name.
  pub new-total :
      HasDistinctIds node_id all_args_and_dependencies root
      → is_output_node root ≡ true
      → IsWellTypedTree root
      → ((n : AnyNode P) → Reach all_args_and_dependencies root n → HasItsMessages n)
      → (private_inputs : BTreeSet String)
      → (rules : Ruleset P) × (new root private_inputs ≡ ok rules)
  unfolding new
  new-total distinct output typed named private_inputs =
      let ordered = flattened_leaves_first-IsLeavesFirst root distinct in
      let groups = Graphs.new_knows root distinct output typed in
      let tag = output_tag-total root output in
      let built =
        add_rules-total distinct typed named groups.0 groups.2 private_inputs []
          (nothing_built tag.0) (flattened_leaves_first root)
          (All-of_members (Reach all_args_and_dependencies root) (flattened_leaves_first root)
            (λ n k. (ordered.1 n).0 k))
          ordered.0 (λ c r h. absurd (none_emitted (node_id c) h)) in
      (built.0.rules, rw (tag.1, groups.1, built.1) refl)
