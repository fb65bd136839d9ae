-- ===== src/Tests/Replays.antt =====
-- A protocol that checks the messages of two parties, and evidence against one of them, for the replay of
-- ayatori/src/execution/evidence.rs.
use ayatori.Prelude.{ℕ, suc, ◌≡◌, ◌<◌, refl, [], ◌∷◌, some, none, arith}
use ayatori.Collections.Order.{nat_ord}
use ayatori.Entities.Tags.{full_name_ord, MappingTag, to_collected}
use ayatori.Entities.Errors.{Result, ok, err, RuntimeError, attributable}
use ayatori.Entities.Params.{Bytes}
use ayatori.Entities.Party.{new_group, clone_box}
use ayatori.Entities.Value.{EvidenceVerdict}
use ayatori.Entities.Function.Simple.{SimpleMappingFunction}
use ayatori.Graph.AnyNode.{
  AnyNode, collect, compute_mapping, ComputeMappingKind, no_args, arg, no_nodes,
}
use ayatori.Graph.AnyNode.Unions.{is_output_node}
use ayatori.Graph.Constructors.Call.{ExecutableProtocol}
use ayatori.Execution.Evidence.{Evidence, EvidenceKind, SenderErrorEvidence}
use ayatori.Execution.Evidence.Verify.{verify_sender_error, verify}
use ayatori.Execution.Evidence.Termination.{verification_work, verify-total}
use ayatori.Execution.Evidence.Deserialization.{verify_sender_error_of_received}
use ayatori.Tests.Data.{params, name_of, session_id, signed_by}
use ayatori.Tests.Graphs.{checked, both_parties, output_at}

-- The value of each party is checked, and never accepted.
abbrev checking : AnyNode params
checking =
    compute_mapping 2 (name_of "check") (arg "value" checked no_args)
      (ComputeMappingKind.simple
        (SimpleMappingFunction.sender_attributable (λ id args. err (attributable "bad value"))))
      no_nodes

abbrev collected : AnyNode params
collected =
    collect 3 (to_collected (MappingTag.computed (name_of "check")) none) checking
      (clone_box (new_group both_parties)) no_nodes

abbrev protocol : ExecutableProtocol params
protocol = record {
  composable = record {
    BuildData = ℕ;
    is_output = is_output_node;
    signature = [];
    build = λ id build_data args i. ok (output_at 4 collected, 5);
  };
  SharedData = ℕ;
  PrivateData = ℕ;
  make_public_inputs = λ shared_data. [];
  make_private_inputs = λ private_data. [];
  make_build_data = λ shared_data. shared_data;
  all_participants = λ shared_data. 1 ∷ both_parties;
}

abbrev failure_at : MappingTag → SenderErrorEvidence params
failure_at tag = record {
  reported_by = 1;
  failed_at = tag;
  signed_values = signed_by 2 "echo" (5 ∷ []) ∷ [];
  error = "bad value";
}

abbrev accusation : Evidence params
accusation = record {
  session_id = session_id;
  guilty_party = 2;
  kind = EvidenceKind.sender_error (failure_at (MappingTag.computed (name_of "check")));
}

abbrev message_id : Bytes
message_id = 9 ∷ []

one_more : (n : ℕ) → n < suc n
one_more n = omega arith

verify-total_example :
    (result : Result RuntimeError EvidenceVerdict) × (verify protocol
        (suc (verification_work protocol message_id accusation 0))
        message_id
        accusation
        0
      ≡ some result)
verify-total_example =
    verify-total protocol (suc (verification_work protocol message_id accusation 0)) message_id
      accusation 0 (one_more (verification_work protocol message_id accusation 0))

verify_sender_error_of_received_example :
    (problem : RuntimeError) × (verify_sender_error protocol 20 message_id
        (failure_at (MappingTag.received (name_of "echo")))
        session_id
        2
        0
      ≡ some (err problem))
verify_sender_error_of_received_example =
    verify_sender_error_of_received protocol 20 message_id
      (failure_at (MappingTag.received (name_of "echo"))) session_id 2 0 (name_of "echo") refl
