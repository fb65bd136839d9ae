-- ===== src/Tests/Evidence.antt =====
-- A protocol with a scalar node that fails because of another party, and evidence of that, for
-- ayatori/src/execution/evidence.rs.
use ayatori.Prelude.{ℕ, suc, ◌≡◌, refl, [], ◌∷◌}
use ayatori.Collections.Order.{nat_ord}
use ayatori.Entities.Tags.{ScalarTag, scalar}
use ayatori.Entities.Errors.{ok, err, attributable}
use ayatori.Entities.Value.{valid}
use ayatori.Graph.AnyNode.{AnyNode, NodeId, no_args}
use ayatori.Graph.AnyNode.Unions.{is_output_node}
use ayatori.Graph.Constructors.{compute_scalar_third_party_attributable}
use ayatori.Graph.Constructors.Call.{ComposableProtocol, ExecutableProtocol}
use ayatori.Execution.Evidence.{ThirdPartyErrorEvidence}
use ayatori.Execution.Evidence.Verify.{verify_third_party}
use ayatori.Execution.Evidence.ThirdParty.{verify_third_party_of_scalar}
use ayatori.Tests.Data.{params, name_of, session_id}

-- Its verification function accepts every error.
abbrev accusing : NodeId → AnyNode params
accusing i =
    compute_scalar_third_party_attributable i "output"
      (λ args. err (
        attributable
          (record { guilty_party = 2; description = "bad share"; associated_data = [] })))
      no_args (λ guilty_party session associated_data. ok valid)

abbrev inner : ComposableProtocol params
inner = record {
  BuildData = ℕ;
  is_output = is_output_node;
  signature = [];
  build = λ id build_data args i. ok (accusing i, suc i);
}

abbrev protocol : ExecutableProtocol params
protocol = record {
  composable = inner;
  SharedData = ℕ;
  PrivateData = ℕ;
  make_public_inputs = λ shared_data. [];
  make_private_inputs = λ private_data. [];
  make_build_data = λ shared_data. shared_data;
  all_participants = λ shared_data. 1 ∷ 2 ∷ [];
}

abbrev accusation : ThirdPartyErrorEvidence params
accusation = record {
  reported_by = 1;
  failed_at = scalar (ScalarTag.computed (name_of "output"));
  error = record { description = "bad share"; associated_data = [] };
}

verify_third_party_of_scalar_example :
    ¬ (verify_third_party protocol accusation session_id 2 0 ≡ ok valid)
verify_third_party_of_scalar_example =
    verify_third_party_of_scalar protocol accusation session_id 2 0
      (ScalarTag.computed (name_of "output")) refl
