-- ===== src/Graph/AnyNode/Mutation/Infallible.antt =====
-- That the copies of a graph that ayatori/src/graph_representation/node_tree.rs expects to succeed
-- (`expect("the closure is infallible")`) do.
use ayatori.Prelude.{
  suc, String, List, [], ◌∷◌, ◌==◌, ◌≡◌, refl, sym, ap, ◌∙◌, All, Bool-cases, inl, inr,
}
use ayatori.Collections.Order.{nat_ord}
use ayatori.Collections.BTreeMap.{get, get_or}
use ayatori.Entities.Errors.{ok}
use ayatori.Entities.Params.{SessionParameters}
use ayatori.Graph.Traversal.{Reach, here}
use ayatori.Graph.Traversal.Reached.{HasDistinctIds, All-of_members, children_reached}
use ayatori.Graph.AnyNode.{NodeId, AnyNode, node_id, all_args_and_dependencies}
use ayatori.Graph.AnyNode.Copies.{without_dependencies, node_with_added_prefix}
use ayatori.Graph.AnyNode.Replace.{Replacements}
use ayatori.Graph.AnyNode.Replace.Typing.{substitute, IsWellTyped}
use ayatori.Graph.AnyNode.Replace.Total.{with_replacements-total}
use ayatori.Graph.AnyNode.Unions.Variants.{variant}
use ayatori.Graph.AnyNode.Tree.{leaves_first_from}
use ayatori.Graph.AnyNode.Tree.Order.{leaves_first_from-All}
use ayatori.Graph.AnyNode.Mutation.{
  Mutation, mutated_node, keep_new, mutated_nodes, mutated_tree, tree_without_dependencies,
  tree_with_added_prefix,
}
use ayatori.Graph.AnyNode.Mutation.Shallow.{
  IsShallowMutation, node_with_added_prefix-IsShallow, substitute-insert_elsewhere,
  substitute-insert_here, without_dependencies-IsShallow,
}

module _ {P : SessionParameters} (root : AnyNode P) where
  abbrev pub IsWellTypedTree : Type 0
  IsWellTypedTree = (n : AnyNode P) → Reach all_args_and_dependencies root n → IsWellTyped n

  -- Nothing below the root is replaced by a node of another variant.
  abbrev Keeps : Replacements P → Type 0
  Keeps m =
      (n : AnyNode P)
      → Reach all_args_and_dependencies root n
      → variant (substitute m n) ≡ variant n

  nothing_replaced : Keeps []
  unfolding substitute get_or get
  nothing_replaced n k = refl

  mutated_node-total :
      (f : Mutation P)
      → IsShallowMutation f
      → IsWellTypedTree
      → (m : Replacements P) → Keeps m
      → (i : NodeId) (node : AnyNode P) → Reach all_args_and_dependencies root node
      → (r : AnyNode P × NodeId) × (mutated_node f m i node ≡ ok r) × (variant r.0 ≡ variant node)
  unfolding mutated_node
  mutated_node-total f shallow typed m keeps i node r =
      let changed = shallow i node in
      let below =
        All-of_members (λ c. variant (substitute m c) ≡ variant c) (all_args_and_dependencies node)
          (λ c k. keeps c (Reach.below r k)) in
      let new =
        with_replacements-total changed.0.1 changed.0.0 m (changed.2.1 (typed node r))
          (changed.2.2 (λ c. variant (substitute m c) ≡ variant c) below) in
      ((new.0, suc changed.0.1), rw (changed.1, new.1) refl, new.2 ∙ changed.2.0)

  keep_new-Keeps :
      HasDistinctIds node_id all_args_and_dependencies root
      → (m : Replacements P) → Keeps m
      → (node new_node : AnyNode P) → Reach all_args_and_dependencies root node
      → variant new_node ≡ variant node
      → Keeps (keep_new m node new_node)
  unfolding keep_new
  keep_new-Keeps distinct m keeps node new_node r v n k =
      elim (Bool-cases (node_id new_node == node_id node)) [
        | inl e ↦ rw e (keeps n k)
        | inr e ↦ elim (nat_ord.dec (node_id n) (node_id node)) [
          | yes p ↦
              rw (e, substitute-insert_here m (node_id node) new_node n p)
                (v ∙ ap variant (distinct node n r k (sym p)))
          | no p ↦ rw (e, substitute-insert_elsewhere m (node_id node) new_node n p) (keeps n k)
        ]
      ]

  mutated_nodes-total :
      HasDistinctIds node_id all_args_and_dependencies root
      → (f : Mutation P) → IsShallowMutation f
      → IsWellTypedTree
      → (nodes : List (AnyNode P)) → All (Reach all_args_and_dependencies root) nodes
      → (m : Replacements P) → Keeps m
      → (i : NodeId)
      → (r : Replacements P × NodeId) × (mutated_nodes f nodes m i ≡ ok r) × Keeps r.0
  unfolding mutated_nodes
  mutated_nodes-total distinct f shallow typed [] a m keeps i = ((m, i), refl, keeps)
  mutated_nodes-total distinct f shallow typed (node ∷ nodes) a m keeps i =
      let new = mutated_node-total f shallow typed m keeps i node a.0 in
      let rest =
        mutated_nodes-total distinct f shallow typed nodes a.1 (keep_new m node new.0.0)
          (keep_new-Keeps distinct m keeps node new.0.0 a.0 new.2) new.0.1 in
      (rest.0, rw (new.1) (rest.1), rest.2)

  mutated_tree-total :
      HasDistinctIds node_id all_args_and_dependencies root
      → (f : Mutation P) → IsShallowMutation f
      → IsWellTypedTree
      → (i : NodeId)
      → (r : AnyNode P × NodeId) × (mutated_tree f i root ≡ ok r) × (variant r.0 ≡ variant root)
  unfolding mutated_tree
  mutated_tree-total distinct f shallow typed i =
      let reached = children_reached node_id all_args_and_dependencies root in
      let all =
        leaves_first_from-All (Reach all_args_and_dependencies root) reached
          (all_args_and_dependencies root) (reached root here) in
      let below_root =
        mutated_nodes-total distinct f shallow typed
          (leaves_first_from (all_args_and_dependencies root)) all [] nothing_replaced i in
      let top =
        mutated_node-total f shallow typed below_root.0.0 below_root.2 below_root.0.1 root here in
      (top.0, rw (below_root.1) (top.1), top.2)

  -- Where no two nodes of a graph have the same address and each argument and dependency of a node is in the
  -- type that the node asks for, the copy of the graph with a prefix added and the copy without
  -- dependencies succeed, and their roots are of the variant of the root.
  pub mutated_tree_infallible :
      HasDistinctIds node_id all_args_and_dependencies root
      → IsWellTypedTree
      → (i : NodeId) (prefix : String)
      → ((r : AnyNode P × NodeId) × (tree_with_added_prefix prefix i root ≡ ok r)
          × (variant r.0 ≡ variant root))
        × ((r : AnyNode P × NodeId) × (tree_without_dependencies i root ≡ ok r)
            × (variant r.0 ≡ variant root))
  unfolding tree_with_added_prefix tree_without_dependencies
  mutated_tree_infallible distinct typed i prefix = (
    mutated_tree-total distinct (λ j node. ok (node_with_added_prefix j node prefix, suc j))
        (λ j node. (
          (node_with_added_prefix j node prefix, suc j),
          refl,
          node_with_added_prefix-IsShallow j node prefix,
        ))
        typed i,
    mutated_tree-total distinct (λ j node. ok (without_dependencies j node, suc j))
        (λ j node.
          ((without_dependencies j node, suc j), refl, without_dependencies-IsShallow j node))
        typed i,
  )
