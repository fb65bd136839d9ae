-- ===== src/Graph/AnyNode/Tree/Order.antt =====
-- That the iterators over a graph of ayatori/src/graph_representation/node_tree.rs come to an end, and
-- what they return.
use ayatori.Prelude.{ℕ, ◌+◌, ◌≤◌, List, [], ◌∷◌, ◌++◌, some, total, ◌≡◌, refl, arith, All, ◌↔◌}
use ayatori.Entities.Params.{SessionParameters}
use ayatori.Graph.AnyNode.{
  AnyNode, compute_scalar, collect, compute_mapping, serialize_and_sign_bc, serialize_and_sign_dm,
  deserialize_and_check, send_bc, send_dm, send_all, receive, scalar_argument, merge_scalars,
  ComputeMappingKind, with_reveal, NamedNodes, no_args, arg, Nodes, no_nodes, next, node_id,
  all_args, verification_args, arg_values, node_list, dependencies, all_args_and_dependencies,
}
use ayatori.Graph.AnyNode.Tree.{
  cost, cost_kind, cost_args, cost_nodes, or_nothing, leaves_first_from, flattened_leaves_first,
  flattened, unordered_args_from,
}
use ayatori.Graph.Traversal.{IsMember, push_all, leaves_first, unordered}
use ayatori.Graph.Traversal.LeavesFirst.{
  leaves_first-total, leaves_first-IsLeavesFirst, IsLeavesFirst,
}
use ayatori.Graph.Traversal.Emitted.{All-push_all, total-push_all}
use ayatori.Graph.Traversal.Reached.Below.{IsBelow, unordered-IsBelow}
use ayatori.Graph.Traversal.Unordered.{unordered-total}
use ayatori.Graph.Traversal.Reached.{
  HasDistinctIds, leaves_first-All, ReturnsReached, leaves_first-ReturnsReached,
  unordered-ReturnsReached,
}

total-append :
    {A : Type 0} (f : A → ℕ) (xs ys : List A) → total f (xs ++ ys) ≡ total f xs + total f ys
unfolding total
total-append f [] ys = omega arith
total-append f (x ∷ xs) ys = omega (arith, total-append f xs ys)

module _ {P : SessionParameters} where
  total-arg_values : (args : NamedNodes P) → total cost (arg_values args) ≡ cost_args args
  unfolding total arg_values cost
  total-arg_values no_args = refl
  total-arg_values (arg name node args) = omega (arith, total-arg_values args)

  total-node_list : (nodes : Nodes P) → total cost (node_list nodes) ≡ cost_nodes nodes
  unfolding total node_list cost
  total-node_list no_nodes = refl
  total-node_list (next node nodes) = omega (arith, total-node_list nodes)

  total-verification_args :
      (kind : ComputeMappingKind P) → total cost (verification_args kind) ≡ cost_kind kind
  unfolding total verification_args cost
  total-verification_args (ComputeMappingKind.simple function) = refl
  total-verification_args (with_reveal function verification args) = total-arg_values args
  total-verification_args (ComputeMappingKind.third_party_attributable function verification) = refl

  cost-split :
      (node : AnyNode P)
      → 2 + total cost (all_args node) + total cost (dependencies node) ≡ cost node
  unfolding total all_args dependencies cost
  cost-split (compute_scalar i tag kind args nodes) =
      omega (arith, total-arg_values args, total-node_list nodes)
  cost-split (collect i tag values group nodes) = omega (arith, total-node_list nodes)
  cost-split (compute_mapping i tag args kind nodes) = omega (
    arith,
    total-append cost (arg_values args) (verification_args kind),
    total-arg_values args,
    total-verification_args kind,
    total-node_list nodes,
  )
  cost-split (serialize_and_sign_bc i tag function signs adapter name) = omega arith
  cost-split (serialize_and_sign_dm i tag function signs adapter name) = omega arith
  cost-split (deserialize_and_check i tag function reads adapter name) = omega arith
  cost-split (send_bc i tag sends destinations nodes) = omega (arith, total-node_list nodes)
  cost-split (send_dm i tag sends nodes) = omega (arith, total-node_list nodes)
  cost-split (send_all i tag values destinations) = omega arith
  cost-split (receive i tag message_name) = omega arith
  cost-split (scalar_argument i tag name) = omega arith
  cost-split (merge_scalars i tag left right) = omega arith

  args_are_cheaper : (node : AnyNode P) → 2 + total cost (all_args node) ≤ cost node
  args_are_cheaper node = omega (arith, cost-split node)

  children_are_cheaper :
      (node : AnyNode P) → 2 + total cost (all_args_and_dependencies node) ≤ cost node
  unfolding all_args_and_dependencies
  children_are_cheaper node =
      omega (arith, cost-split node, total-append cost (all_args node) (dependencies node))

  run-leaves_first :
      (roots : List (AnyNode P))
      → leaves_first node_id all_args_and_dependencies (total cost roots) (push_all [] roots) []
        ≡ some (leaves_first_from roots)
  unfolding leaves_first_from or_nothing
  run-leaves_first roots =
      let r =
        leaves_first-total node_id all_args_and_dependencies cost children_are_cheaper roots
          (total cost roots) (omega arith) in
      rw (r.1) refl

  run-unordered :
      (root : AnyNode P)
      → unordered node_id all_args_and_dependencies (cost root) (root ∷ []) []
        ≡ some (flattened root)
  unfolding flattened or_nothing total
  run-unordered root =
      let r =
        unordered-total node_id all_args_and_dependencies cost children_are_cheaper (cost root)
          (root ∷ []) [] (omega arith) in
      rw (r.1) refl

  -- A node is in this list exactly once, and only after all its arguments and dependencies.
  pub leaves_first_from-IsLeavesFirst :
      (roots : List (AnyNode P))
      → IsLeavesFirst node_id all_args_and_dependencies [] (leaves_first_from roots)
  leaves_first_from-IsLeavesFirst roots =
      leaves_first-IsLeavesFirst node_id all_args_and_dependencies (total cost roots)
        (push_all [] roots) [] (leaves_first_from roots) (run-leaves_first roots)

  pub leaves_first_from-All :
      (Q : AnyNode P → Type 0)
      → ((n : AnyNode P) → Q n → All Q (all_args_and_dependencies n))
      → (roots : List (AnyNode P)) → All Q roots
      → All Q (leaves_first_from roots)
  leaves_first_from-All Q keep roots a =
      leaves_first-All node_id all_args_and_dependencies Q keep (total cost roots)
        (push_all [] roots) [] (leaves_first_from roots) (All-push_all Q [] roots tt a)
        (run-leaves_first roots)

  -- Where no two nodes of a graph have the same address, the list with the leaves first has each node
  -- below the root and no other, none of them twice, and each after all its arguments and dependencies.
  pub flattened_leaves_first-IsLeavesFirst :
      (root : AnyNode P)
      → HasDistinctIds node_id all_args_and_dependencies root
      → IsLeavesFirst node_id all_args_and_dependencies [] (flattened_leaves_first root)
        × ReturnsReached node_id all_args_and_dependencies root (flattened_leaves_first root)
  unfolding flattened_leaves_first push_all
  flattened_leaves_first-IsLeavesFirst root distinct = (
    leaves_first_from-IsLeavesFirst (root ∷ []),
    leaves_first-ReturnsReached node_id all_args_and_dependencies root distinct
        (total cost (root ∷ [])) (leaves_first_from (root ∷ [])) (run-leaves_first (root ∷ [])),
  )

  -- Where no two nodes of a graph have the same address, the unordered list has each node below the
  -- root and no other.
  pub flattened-ReturnsReached :
      (root : AnyNode P)
      → HasDistinctIds node_id all_args_and_dependencies root
      → ReturnsReached node_id all_args_and_dependencies root (flattened root)
  flattened-ReturnsReached root distinct =
      unordered-ReturnsReached node_id all_args_and_dependencies root distinct (cost root)
        (flattened root) (run-unordered root)

  run-unordered_args :
      (roots : List (AnyNode P))
      → unordered node_id all_args (total cost roots) (push_all [] roots) []
        ≡ some (unordered_args_from roots)
  unfolding unordered_args_from or_nothing total
  run-unordered_args roots =
      let r =
        unordered-total node_id all_args cost args_are_cheaper (total cost roots)
          (push_all [] roots) [] (omega (arith, total-push_all cost [] roots)) in
      rw (r.1) refl

  -- Where no two nodes below some roots have the same address, the unordered list of arguments has each
  -- node below a root and no other.
  pub unordered_args_from-IsBelow :
      (roots : List (AnyNode P))
      → ((m n : AnyNode P)
          → IsBelow all_args roots m
          → IsBelow all_args roots n
          → node_id m ≡ node_id n
          → m ≡ n)
      → (n : AnyNode P) → IsMember n (unordered_args_from roots) ↔ IsBelow all_args roots n
  unordered_args_from-IsBelow roots distinct =
      unordered-IsBelow node_id all_args roots distinct (total cost roots)
        (unordered_args_from roots) (run-unordered_args roots)
