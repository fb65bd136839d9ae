-- ===== src/Execution/Evidence/Verify.antt =====
-- ayatori/src/execution/evidence.rs: `verify` of each kind of evidence. The loop of a replay is on fuel,
-- and a message that it makes gets the ID `message_id`.
use ayatori.Prelude.{ℕ, zero, List, Option, none, some}
use ayatori.Collections.Order.{Ord}
use ayatori.Entities.Errors.{Result, ok, err, ◌>>=◌, RuntimeError}
use ayatori.Entities.Params.{Bytes, SessionId, SessionParameters}
use ayatori.Entities.Message.{SignedValue}
use ayatori.Entities.Value.{EvidenceVerdict, invalid}
use ayatori.Entities.Function.{AssociatedData}
use ayatori.Graph.AnyNode.{AnyNode, compute_mapping, ComputeMappingKind}
use ayatori.Graph.AnyNode.Subtree.{find_subnode}
use ayatori.Graph.Constructors.Call.{ExecutableProtocol, build_output}
use ayatori.Execution.Session.{Session}
use ayatori.Execution.Session.Build.{new_with_reproduction_subtree}
use ayatori.Execution.Session.Reproduction.{run_evidence_verification_session}
use ayatori.Execution.Evidence.{
  SenderErrorEvidence, SenderErrorWithRevealEvidence, ThirdPartyErrorEvidence, EvidenceKind,
  sender_error, sender_error_with_reveal, conflicting_messages, third_party_error, Evidence,
  verify_conflicting,
}

module _ {P : SessionParameters} where
  -- The verification function of the node that failed.
  unfoldable pub verify_at :
      SessionId
      → P.Verifier
      → AssociatedData
      → Option (AnyNode P)
      → Result RuntimeError EvidenceVerdict
  verify_at session_id guilty_party associated_data none = ok (invalid "Could not find subnode")
  verify_at session_id guilty_party associated_data
        (some (
          compute_mapping i tag args
            (ComputeMappingKind.third_party_attributable function verification)
            nodes)) =
      verification guilty_party session_id associated_data
  verify_at session_id guilty_party associated_data (some (compute_mapping i tag args kind nodes)) =
      ok (invalid "Invalid function type")
  verify_at session_id guilty_party associated_data (some node) = ok (invalid "Invalid node type")

module _ {P : SessionParameters} ⦃o : Ord P.Verifier⦄ (protocol : ExecutableProtocol P) where
  unfoldable pub verify_third_party :
      ThirdPartyErrorEvidence P
      → SessionId
      → P.Verifier
      → protocol.SharedData
      → Result RuntimeError EvidenceVerdict
  verify_third_party e session_id guilty_party shared_data =
      build_output (protocol.composable) (e.reported_by) (protocol.make_build_data shared_data) zero
      >>= λ output.
          verify_at session_id guilty_party (e.error.associated_data)
            (find_subnode (output.0) (e.failed_at))

  -- The replay in a session, or the error that kept the session from being made.
  unfoldable pub replay :
      ℕ
      → Bytes
      → Result RuntimeError (Session P)
      → P.Verifier
      → P.Verifier
      → List (SignedValue P)
      → Option (Result RuntimeError EvidenceVerdict)
  replay fuel message_id (err e) reported_by guilty_party signed_values = some (err e)
  replay fuel message_id (ok session) reported_by guilty_party signed_values =
      run_evidence_verification_session fuel message_id session reported_by guilty_party
        signed_values

  unfoldable pub verify_sender_error :
      ℕ
      → Bytes
      → SenderErrorEvidence P
      → SessionId
      → P.Verifier
      → protocol.SharedData
      → Option (Result RuntimeError EvidenceVerdict)
  verify_sender_error fuel message_id e session_id guilty_party shared_data =
      replay fuel message_id
        (new_with_reproduction_subtree protocol session_id (e.failed_at) (e.reported_by)
          guilty_party shared_data none)
        (e.reported_by) guilty_party (e.signed_values)

  unfoldable pub verify_sender_error_with_reveal :
      ℕ
      → Bytes
      → SenderErrorWithRevealEvidence P
      → SessionId
      → P.Verifier
      → protocol.SharedData
      → Option (Result RuntimeError EvidenceVerdict)
  verify_sender_error_with_reveal fuel message_id e session_id guilty_party shared_data =
      replay fuel message_id
        (new_with_reproduction_subtree protocol session_id (e.failed_at) (e.reported_by)
          guilty_party shared_data (some (e.error.associated_data)))
        (e.reported_by) guilty_party (e.signed_values)

  unfoldable pub verify_kind :
      ℕ
      → Bytes
      → EvidenceKind P
      → SessionId
      → P.Verifier
      → protocol.SharedData
      → Option (Result RuntimeError EvidenceVerdict)
  verify_kind fuel message_id (sender_error e) session_id guilty_party shared_data =
      verify_sender_error fuel message_id e session_id guilty_party shared_data
  verify_kind fuel message_id (sender_error_with_reveal e) session_id guilty_party shared_data =
      verify_sender_error_with_reveal fuel message_id e session_id guilty_party shared_data
  verify_kind fuel message_id (conflicting_messages e) session_id guilty_party shared_data =
      some (verify_conflicting e session_id guilty_party)
  verify_kind fuel message_id (third_party_error e) session_id guilty_party shared_data =
      some (verify_third_party e session_id guilty_party shared_data)

  unfoldable pub verify :
      ℕ → Bytes → Evidence P → protocol.SharedData → Option (Result RuntimeError EvidenceVerdict)
  verify fuel message_id e shared_data =
      verify_kind fuel message_id (e.kind) (e.session_id) (e.guilty_party) shared_data
