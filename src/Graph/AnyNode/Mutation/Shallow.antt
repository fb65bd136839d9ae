-- ===== src/Graph/AnyNode/Mutation/Shallow.antt =====
-- The changes of a node that leave its children alone, for the copies of a graph of
-- ayatori/src/graph_representation/node_tree.rs.
use ayatori.Prelude.{String, List, [], ◌∷◌, ◌++◌, ◌≡◌, refl, arith, All}
use ayatori.Collections.Order.{nat_ord}
use ayatori.Collections.BTreeMap.{get_or, insert, get-insert}
use ayatori.Entities.Errors.{ok}
use ayatori.Entities.Params.{SessionParameters}
use ayatori.Graph.AnyNode.{
  NodeId, AnyNode, compute_scalar, collect, compute_mapping, serialize_and_sign_bc,
  serialize_and_sign_dm, deserialize_and_check, send_bc, send_dm, send_all, receive,
  scalar_argument, merge_scalars, node_id, node_list, all_args, dependencies,
  all_args_and_dependencies, arg_values, verification_args,
}
use ayatori.Graph.AnyNode.Copies.{without_dependencies, node_with_added_prefix}
use ayatori.Graph.AnyNode.Replace.{Replacements}
use ayatori.Graph.AnyNode.Replace.Typing.{substitute, IsWellTyped}
use ayatori.Graph.AnyNode.Unions.Variants.{variant}
use ayatori.Graph.AnyNode.Mutation.{Mutation}

module _ {P : SessionParameters} where
  -- What a change makes of a node is of the variant of the node, and well-typed with children of the node.
  abbrev pub IsShallow : AnyNode P → AnyNode P → Type 1
  IsShallow node new_node =
      (variant new_node ≡ variant node)
      × (IsWellTyped node → IsWellTyped new_node)
      × ((Q : AnyNode P → Type 0)
          → All Q (all_args_and_dependencies node)
          → All Q (all_args_and_dependencies new_node))

  -- A closure that is infallible, and changes a node but not its children.
  abbrev pub IsShallowMutation : Mutation P → Type 1
  IsShallowMutation f =
      (i : NodeId) (node : AnyNode P)
      → (r : AnyNode P × NodeId) × (f i node ≡ ok r) × IsShallow node r.0

  pub node_with_added_prefix-IsShallow :
      (i : NodeId) (node : AnyNode P) (prefix : String)
      → IsShallow node (node_with_added_prefix i node prefix)
  unfolding node_with_added_prefix variant all_args_and_dependencies all_args dependencies
      IsWellTyped
  node_with_added_prefix-IsShallow i (compute_scalar j tag kind args nodes) prefix =
      (refl, λ w. w, λ q a. a)
  node_with_added_prefix-IsShallow i (collect j tag values group nodes) prefix =
      (refl, λ w. w, λ q a. a)
  node_with_added_prefix-IsShallow i (compute_mapping j tag args kind nodes) prefix =
      (refl, λ w. w, λ q a. a)
  node_with_added_prefix-IsShallow i (serialize_and_sign_bc j tag f signs adapter n) prefix =
      (refl, λ w. w, λ q a. a)
  node_with_added_prefix-IsShallow i (serialize_and_sign_dm j tag f signs adapter n) prefix =
      (refl, λ w. w, λ q a. a)
  node_with_added_prefix-IsShallow i (deserialize_and_check j tag f reads adapter n) prefix =
      (refl, λ w. w, λ q a. a)
  node_with_added_prefix-IsShallow i (send_bc j tag sends destinations nodes) prefix =
      (refl, λ w. w, λ q a. a)
  node_with_added_prefix-IsShallow i (send_dm j tag sends nodes) prefix = (refl, λ w. w, λ q a. a)
  node_with_added_prefix-IsShallow i (send_all j tag values destinations) prefix =
      (refl, λ w. w, λ q a. a)
  node_with_added_prefix-IsShallow i (receive j tag n) prefix = (refl, λ w. w, λ q a. a)
  node_with_added_prefix-IsShallow i (scalar_argument j tag n) prefix = (refl, λ w. w, λ q a. a)
  node_with_added_prefix-IsShallow i (merge_scalars j tag left right) prefix =
      (refl, λ w. w, λ q a. a)

  All-without :
      (Q : AnyNode P → Type 0) (xs ys : List (AnyNode P)) → All Q (xs ++ ys) → All Q (xs ++ [])
  All-without Q [] ys a = tt
  All-without Q (x ∷ xs) ys a = (a.0, All-without Q xs ys a.1)

  pub without_dependencies-IsShallow :
      (i : NodeId) (node : AnyNode P) → IsShallow node (without_dependencies i node)
  unfolding without_dependencies variant all_args_and_dependencies all_args dependencies IsWellTyped
      node_list
  without_dependencies-IsShallow i (compute_scalar j tag kind args nodes) =
      (refl, λ w. (w.0, tt), λ q a. All-without q (arg_values args) (node_list nodes) a)
  without_dependencies-IsShallow i (collect j tag values group nodes) =
      (refl, λ w. (w.0, tt), λ q a. All-without q (values ∷ []) (node_list nodes) a)
  without_dependencies-IsShallow i (compute_mapping j tag args kind nodes) = (
    refl,
    λ w. (w.0, w.1, tt),
    λ q a. All-without q (arg_values args ++ verification_args kind) (node_list nodes) a,
  )
  without_dependencies-IsShallow i (serialize_and_sign_bc j tag f signs adapter n) =
      (refl, λ w. w, λ q a. a)
  without_dependencies-IsShallow i (serialize_and_sign_dm j tag f signs adapter n) =
      (refl, λ w. w, λ q a. a)
  without_dependencies-IsShallow i (deserialize_and_check j tag f reads adapter n) =
      (refl, λ w. w, λ q a. a)
  without_dependencies-IsShallow i (send_bc j tag sends destinations nodes) =
      (refl, λ w. (w.0, tt), λ q a. All-without q (sends ∷ []) (node_list nodes) a)
  without_dependencies-IsShallow i (send_dm j tag sends nodes) =
      (refl, λ w. (w.0, tt), λ q a. All-without q (sends ∷ []) (node_list nodes) a)
  without_dependencies-IsShallow i (send_all j tag values destinations) = (refl, λ w. w, λ q a. a)
  without_dependencies-IsShallow i (receive j tag n) = (refl, λ w. w, λ q a. a)
  without_dependencies-IsShallow i (scalar_argument j tag n) = (refl, λ w. w, λ q a. a)
  without_dependencies-IsShallow i (merge_scalars j tag left right) = (refl, λ w. w, λ q a. a)

  pub substitute-insert_here :
      (m : Replacements P) (k : NodeId) (new_node n : AnyNode P)
      → node_id n ≡ k
      → substitute (insert m k new_node) n ≡ new_node
  unfolding substitute get_or
  substitute-insert_here m k new_node n p = ground (arith, get-insert m k (node_id n) new_node, p)

  pub substitute-insert_elsewhere :
      (m : Replacements P) (k : NodeId) (new_node n : AnyNode P)
      → ¬ (node_id n ≡ k)
      → substitute (insert m k new_node) n ≡ substitute m n
  unfolding substitute get_or
  substitute-insert_elsewhere m k new_node n p =
      ground (arith, get-insert m k (node_id n) new_node, p)
