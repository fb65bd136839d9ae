-- ===== src/Execution/Session/Build.antt =====
-- ayatori/src/execution/session.rs: how a session is made of a protocol: the protocol's graph, its rules,
-- and the inputs. A new graph starts at the address `zero`.
use ayatori.Prelude.{zero, [], Option, none, some}
use ayatori.Collections.Order.{Ord}
use ayatori.Entities.Tags.{MappingTag}
use ayatori.Entities.Errors.{Result, ◌>>=◌, RuntimeError}
use ayatori.Entities.Params.{SessionId, SessionParameters}
use ayatori.Entities.Function.{AssociatedData}
use ayatori.Graph.AnyNode.{NodeId, AnyNode}
use ayatori.Graph.Args.{Inputs, input_names}
use ayatori.Graph.Constructors.Call.{ExecutableProtocol, build_output}
use ayatori.Graph.Reproduction.{get_reproduction_subtree}
use ayatori.Flat.Ruleset.Build
use ayatori.Execution.Session.{Session}
use ayatori.Execution.Session.Inputs.{new_inner}

module _ {P : SessionParameters} ⦃o : Ord P.Verifier⦄ (protocol : ExecutableProtocol P) where
  unfoldable pub make_tree :
      P.Verifier → protocol.SharedData → Result RuntimeError (AnyNode P × NodeId)
  make_tree verifier shared_data =
      build_output (protocol.composable) verifier (protocol.make_build_data shared_data) zero

  -- `new_inner`, with the ruleset that it builds.
  unfoldable pub new_with_output :
      SessionId
      → Option P.Signer
      → P.Verifier
      → AnyNode P
      → Inputs P
      → protocol.SharedData
      → Result RuntimeError (Session P)
  new_with_output id signer verifier output_node private_inputs shared_data =
      Build.new output_node (input_names private_inputs) >>= λ rules.
      new_inner id signer verifier (protocol.all_participants shared_data) rules
        (protocol.make_public_inputs shared_data) private_inputs

  unfoldable pub new :
      SessionId
      → P.Signer
      → protocol.PrivateData
      → protocol.SharedData
      → Result RuntimeError (Session P)
  new id signer private_data shared_data =
      make_tree (P.verifying_key signer) shared_data >>= λ output.
      new_with_output id (some signer) (P.verifying_key signer) (output.0)
        (protocol.make_private_inputs private_data) shared_data

  unfoldable pub new_with_reproduction_subtree :
      SessionId
      → MappingTag
      → P.Verifier
      → P.Verifier
      → protocol.SharedData
      → Option AssociatedData
      → Result RuntimeError (Session P)
  new_with_reproduction_subtree id subtree_root reported_by guilty_party shared_data
        associated_data =
      do
        full_graph ← make_tree reported_by shared_data
        output ←
            get_reproduction_subtree (full_graph.1) (full_graph.0) subtree_root guilty_party
              associated_data
        new_with_output id none reported_by (output.0) [] shared_data
