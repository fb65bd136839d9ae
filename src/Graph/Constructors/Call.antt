-- ===== src/Graph/Constructors/Call.antt =====
-- ayatori/src/graph_representation/constructors.rs: `call_protocol`, which takes the graph of a protocol
-- into another one. A protocol (the traits `ComposableProtocol` and `ExecutableProtocol` of
-- ayatori/src/traits.rs) is a record of what its author writes.
use ayatori.Prelude.{String, Bool, if◌then◌else◌}
use ayatori.Collections.BTreeSet.{BTreeSet}
use ayatori.Entities.Errors.{Result, ok, err, ◌>>=◌, RuntimeError, failed}
use ayatori.Entities.Params.{SessionParameters}
use ayatori.Graph.AnyNode.{NodeId, AnyNode}
use ayatori.Graph.AnyNode.Mutation.{tree_with_added_prefix, with_substituted_arguments}
use ayatori.Graph.Args.{Inputs, ProtocolSignature, NodesByName, arg_nodes, bind}

-- `build` gets the address that its first new node has, and returns the next one with its output.
pub record ComposableProtocol (P : SessionParameters) : Type 1 where
  pub BuildData : Type 0
  pub is_output : AnyNode P → Bool
  pub signature : ProtocolSignature
  pub build :
      P.Verifier → BuildData → NodesByName P → NodeId → Result RuntimeError (AnyNode P × NodeId)

pub record ExecutableProtocol (P : SessionParameters) : Type 1 where
  pub composable : ComposableProtocol P
  pub SharedData : Type 0
  pub PrivateData : Type 0
  pub make_public_inputs : SharedData → Inputs P
  pub make_private_inputs : PrivateData → Inputs P
  pub make_build_data : SharedData → composable.BuildData
  pub all_participants : SharedData → BTreeSet P.Verifier

module _ {P : SessionParameters} (protocol : ComposableProtocol P) where
  -- The graph of a protocol, on the nodes of the arguments that it declares.
  unfoldable pub build_output :
      P.Verifier → protocol.BuildData → NodeId → Result RuntimeError (AnyNode P × NodeId)
  build_output id build_data i =
      let (nodes, next) = arg_nodes i (protocol.signature) in
      protocol.build id build_data nodes next

  unfoldable pub downcast_output : AnyNode P × NodeId → Result RuntimeError (AnyNode P × NodeId)
  downcast_output output =
      if protocol.is_output (output.0)
      then ok output
      else err (failed "Adding a prefix changed the root node type")

  unfoldable pub call_protocol :
      String
      → P.Verifier
      → protocol.BuildData
      → NodesByName P
      → NodeId
      → Result RuntimeError (AnyNode P × NodeId)
  call_protocol prefix id build_data args i = do
    output ← build_output id build_data i
    prefixed ← tree_with_added_prefix prefix (output.1) (output.0)
    bound_args ← bind (protocol.signature) args
    with_args ← with_substituted_arguments bound_args (prefixed.1) (prefixed.0)
    downcast_output with_args
