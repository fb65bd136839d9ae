-- ===== src/Graph/AnyNode.antt =====
-- ayatori/src/graph_representation/any_node.rs and specific_nodes.rs: the nodes with the nodes that they
-- hold. A `Node` is a shared pointer to contents that never change, so it is those contents together
-- with its address, its `NodeId`; `get_strong_ref` is the node itself. The unions of the node types
-- (union_nodes.rs) are tests on `AnyNode`, see `Unions`, so an argument is an `AnyNode` here. The field
-- `data` of a node is named for what the node does with it (`signs`, `reads`, `sends`).
pub mod Unions
pub mod Replace
pub mod Tree
pub mod Mutation
pub mod Subtree
pub mod Views
pub mod Copies
use ayatori.Prelude.{ℕ, ◌+◌, String, List, [], ◌∷◌, ◌++◌, Bool}
use ayatori.Collections.BTreeSet.{BTreeSet}
use ayatori.Entities.Tags.{
  FullName, ScalarTag, MappingTag, AnyTag, scalar, mapping, CollectedTag, with_added_prefix,
  collected_with_added_prefix,
}
use ayatori.Entities.Params.{SessionParameters}
use ayatori.Entities.Party.{PartyGroup}
use ayatori.Entities.Value.{SerdeAdapter}
use ayatori.Entities.Function.{
  ThirdPartyAttributableScalarFunction, ThirdPartyAttributableMappingFunction,
  SenderAttributableWithRevealMappingFunction, SerializeAndSignBcFunction,
  SerializeAndSignDmFunction, DeserializeFunction,
}
use ayatori.Entities.Function.Simple.{
  SimpleScalarFunction, SimpleMappingFunction, ThirdPartyAttributableVerificationFunction,
  SenderAttributableVerificationFunction,
}

abbrev pub NodeId : Type 0
NodeId = ℕ

pub data ComputeScalarKind (P : SessionParameters) : Type 0 where
  simple : SimpleScalarFunction P → ComputeScalarKind P
  third_party_attributable :
      ThirdPartyAttributableScalarFunction P
      → ThirdPartyAttributableVerificationFunction P
      → ComputeScalarKind P

-- The fields of each variant are those of its struct, in its order.
mutual
  pub data AnyNode (P : SessionParameters) : Type 0 where
    compute_scalar : NodeId → FullName → ComputeScalarKind P → NamedNodes P → Nodes P → AnyNode P
    collect : NodeId → CollectedTag → AnyNode P → PartyGroup P.Verifier → Nodes P → AnyNode P
    compute_mapping : NodeId → FullName → NamedNodes P → ComputeMappingKind P → Nodes P → AnyNode P
    serialize_and_sign_bc :
        NodeId
        → FullName
        → SerializeAndSignBcFunction P
        → AnyNode P
        → SerdeAdapter P
        → FullName
        → AnyNode P
    serialize_and_sign_dm :
        NodeId
        → FullName
        → SerializeAndSignDmFunction P
        → AnyNode P
        → SerdeAdapter P
        → FullName
        → AnyNode P
    deserialize_and_check :
        NodeId
        → FullName
        → DeserializeFunction P
        → AnyNode P
        → SerdeAdapter P
        → FullName
        → AnyNode P
    send_bc : NodeId → FullName → AnyNode P → BTreeSet P.Verifier → Nodes P → AnyNode P
    send_dm : NodeId → FullName → AnyNode P → Nodes P → AnyNode P
    send_all : NodeId → FullName → AnyNode P → BTreeSet P.Verifier → AnyNode P
    receive : NodeId → FullName → FullName → AnyNode P
    scalar_argument : NodeId → FullName → String → AnyNode P
    merge_scalars : NodeId → FullName → AnyNode P → AnyNode P → AnyNode P

  pub data ComputeMappingKind (P : SessionParameters) : Type 0 where
    simple : SimpleMappingFunction P → ComputeMappingKind P
    with_reveal :
        SenderAttributableWithRevealMappingFunction P
        → SenderAttributableVerificationFunction P
        → NamedNodes P
        → ComputeMappingKind P
    third_party_attributable :
        ThirdPartyAttributableMappingFunction P
        → ThirdPartyAttributableVerificationFunction P
        → ComputeMappingKind P

  -- `BTreeMap<String, _>` of nodes
  pub data NamedNodes (P : SessionParameters) : Type 0 where
    no_args : NamedNodes P
    arg : String → AnyNode P → NamedNodes P → NamedNodes P

  -- `Vec<Dependency>`
  pub data Nodes (P : SessionParameters) : Type 0 where
    no_nodes : Nodes P
    next : AnyNode P → Nodes P → Nodes P

module _ {P : SessionParameters} where
  unfoldable pub arg_values : NamedNodes P → List (AnyNode P)
  arg_values no_args = []
  arg_values (arg name node args) = node ∷ arg_values args

  unfoldable pub node_list : Nodes P → List (AnyNode P)
  node_list no_nodes = []
  node_list (next node nodes) = node ∷ node_list nodes

  unfoldable pub node_id : AnyNode P → NodeId
  node_id (compute_scalar i store_in kind args dependencies) = i
  node_id (collect i store_in values group dependencies) = i
  node_id (compute_mapping i store_in args kind dependencies) = i
  node_id (serialize_and_sign_bc i store_in function signs adapter message_name) = i
  node_id (serialize_and_sign_dm i store_in function signs adapter message_name) = i
  node_id (deserialize_and_check i store_in function reads adapter message_name) = i
  node_id (send_bc i store_in sends destinations dependencies) = i
  node_id (send_dm i store_in sends dependencies) = i
  node_id (send_all i store_in values destinations) = i
  node_id (receive i store_in message_name) = i
  node_id (scalar_argument i store_in name) = i
  node_id (merge_scalars i store_in left right) = i

  unfoldable pub store_in : AnyNode P → AnyTag
  store_in (compute_scalar i tag kind args dependencies) = scalar (ScalarTag.computed tag)
  store_in (collect i tag values group dependencies) = scalar (ScalarTag.collected tag)
  store_in (compute_mapping i tag args kind dependencies) = mapping (MappingTag.computed tag)
  store_in (serialize_and_sign_bc i tag function signs adapter name) =
      scalar (ScalarTag.local_signed tag)
  store_in (serialize_and_sign_dm i tag function signs adapter name) =
      mapping (MappingTag.local_signed tag)
  store_in (deserialize_and_check i tag function reads adapter name) =
      mapping (MappingTag.received tag)
  store_in (send_bc i tag sends destinations dependencies) = scalar (ScalarTag.sent tag)
  store_in (send_dm i tag sends dependencies) = mapping (MappingTag.sent tag)
  store_in (send_all i tag values destinations) = scalar (ScalarTag.sent_all tag)
  store_in (receive i tag message_name) = mapping (MappingTag.remote_signed tag)
  store_in (scalar_argument i tag name) = scalar (ScalarTag.argument tag)
  store_in (merge_scalars i tag left right) = scalar (ScalarTag.merged tag)

  unfoldable pub dependencies : AnyNode P → List (AnyNode P)
  dependencies (compute_scalar i tag kind args nodes) = node_list nodes
  dependencies (collect i tag values group nodes) = node_list nodes
  dependencies (compute_mapping i tag args kind nodes) = node_list nodes
  dependencies (send_bc i tag sends destinations nodes) = node_list nodes
  dependencies (send_dm i tag sends nodes) = node_list nodes
  dependencies _ = []

  -- The arguments of the verification, which a function with a reveal has and no other.
  unfoldable pub verification_args : ComputeMappingKind P → List (AnyNode P)
  verification_args (ComputeMappingKind.simple function) = []
  verification_args (with_reveal function verification args) = arg_values args
  verification_args (ComputeMappingKind.third_party_attributable function verification) = []

  unfoldable pub all_args : AnyNode P → List (AnyNode P)
  all_args (compute_scalar i tag kind args nodes) = arg_values args
  all_args (collect i tag values group nodes) = values ∷ []
  all_args (compute_mapping i tag args kind nodes) = arg_values args ++ verification_args kind
  all_args (serialize_and_sign_bc i tag function signs adapter name) = signs ∷ []
  all_args (serialize_and_sign_dm i tag function signs adapter name) = signs ∷ []
  all_args (deserialize_and_check i tag function reads adapter name) = reads ∷ []
  all_args (send_bc i tag sends destinations nodes) = sends ∷ []
  all_args (send_dm i tag sends nodes) = sends ∷ []
  all_args (send_all i tag values destinations) = values ∷ []
  all_args (receive i tag message_name) = []
  all_args (scalar_argument i tag name) = []
  all_args (merge_scalars i tag left right) = left ∷ right ∷ []

  unfoldable pub all_args_and_dependencies : AnyNode P → List (AnyNode P)
  all_args_and_dependencies node = all_args node ++ dependencies node
