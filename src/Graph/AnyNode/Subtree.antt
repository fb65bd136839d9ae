-- ===== src/Graph/AnyNode/Subtree.antt =====
-- ayatori/src/graph_representation/node_tree.rs: what the graph below a node tells of it.
pub mod Needs
pub mod Blocking
pub mod Reproduced
pub mod Found
use ayatori.Prelude.{
  String, Bool, true, false, List, [], ◌∷◌, Option, none, some, if◌then◌else◌, ite,
}
use ayatori.Collections.Order.{string_ord}
use ayatori.Collections.BTreeSet.{BTreeSet, insert}
use ayatori.Entities.Tags.{FullName, full_name_ord, AnyTag, AnyTag_discrete}
use ayatori.Entities.Params.{SessionParameters}
use ayatori.Entities.Function.Simple.{
  SimpleScalarFunction, SimpleMappingFunction, scalar_is_deterministic, mapping_is_deterministic,
}
use ayatori.Graph.AnyNode.{
  AnyNode, compute_scalar, collect, compute_mapping, serialize_and_sign_bc, serialize_and_sign_dm,
  deserialize_and_check, send_bc, send_dm, send_all, receive, scalar_argument, merge_scalars,
  ComputeScalarKind, ComputeMappingKind, with_reveal, arg_values, store_in,
}
use ayatori.Graph.AnyNode.Tree.{unordered_args_from, flattened_args_only, flattened}

pub data Reproducibility : Type 0 where
  available : BTreeSet String → BTreeSet FullName → Reproducibility
  not_available : Reproducibility

module _ {P : SessionParameters} where
  unfoldable pub is_receive : AnyNode P → Bool
  is_receive (receive i tag name) = true
  is_receive _ = false

  unfoldable pub no_receive : List (AnyNode P) → Bool
  no_receive [] = true
  no_receive (node ∷ nodes) = if is_receive node then false else no_receive nodes

  unfoldable pub is_local : AnyNode P → Bool
  is_local node = no_receive (flattened_args_only node)

  -- The nodes that the reproduction of a node computes.
  unfoldable pub reproduced_subnodes : AnyNode P → List (AnyNode P)
  reproduced_subnodes (compute_mapping i tag args (with_reveal function verification reads) nodes) =
      unordered_args_from (arg_values reads)
  reproduced_subnodes node = flattened_args_only node

  unfoldable pub scalar_kind_reproducible : ComputeScalarKind P → Bool
  scalar_kind_reproducible (ComputeScalarKind.simple function) = scalar_is_deterministic function
  scalar_kind_reproducible (ComputeScalarKind.third_party_attributable function verification) = true

  unfoldable pub mapping_kind_reproducible : ComputeMappingKind P → Bool
  mapping_kind_reproducible (ComputeMappingKind.simple function) = mapping_is_deterministic function
  mapping_kind_reproducible (with_reveal function verification args) = true
  mapping_kind_reproducible (ComputeMappingKind.third_party_attributable function verification) =
      true

  -- The returns of the loop, one test for each kind of node.
  unfoldable pub node_reproducible : AnyNode P → Bool
  node_reproducible (compute_scalar i tag kind args nodes) = scalar_kind_reproducible kind
  node_reproducible (compute_mapping i tag args kind nodes) = mapping_kind_reproducible kind
  node_reproducible (serialize_and_sign_bc i tag function signs adapter name) = false
  node_reproducible (serialize_and_sign_dm i tag function signs adapter name) = false
  node_reproducible (collect i tag values group nodes) = is_local (collect i tag values group nodes)
  node_reproducible _ = true

  unfoldable pub with_argument : BTreeSet String → AnyNode P → BTreeSet String
  with_argument arguments (scalar_argument i tag name) = insert arguments name
  with_argument arguments node = arguments

  unfoldable pub with_message : BTreeSet FullName → AnyNode P → BTreeSet FullName
  with_message messages (receive i tag message_name) = insert messages message_name
  with_message messages node = messages

  unfoldable pub reproducibility_of :
      List (AnyNode P) → BTreeSet String → BTreeSet FullName → Reproducibility
  reproducibility_of [] arguments messages = available arguments messages
  reproducibility_of (node ∷ nodes) arguments messages =
      let rest =
        reproducibility_of nodes (with_argument arguments node) (with_message messages node) in
      if node_reproducible node then rest else not_available

  unfoldable pub reproducibility : AnyNode P → Reproducibility
  reproducibility node = reproducibility_of (reproduced_subnodes node) [] []

  unfoldable pub find_stored_in : List (AnyNode P) → AnyTag → Option (AnyNode P)
  find_stored_in [] tag = none
  find_stored_in (node ∷ nodes) tag =
      ite (AnyTag_discrete (store_in node) tag) (some node) (find_stored_in nodes tag)

  unfoldable pub find_subnode : AnyNode P → AnyTag → Option (AnyNode P)
  find_subnode root tag = find_stored_in (flattened root) tag
