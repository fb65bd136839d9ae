-- ===== src/Execution/Evidence/ThirdParty.antt =====
-- Which third-party errors of ayatori/src/execution/evidence.rs can be proved: `verify` knows those of
-- mapping nodes only, although scalar nodes have them too.
use ayatori.Prelude.{zero, ◌∙◌, Option, none, some, ◌≡◌, refl, arith}
use ayatori.Collections.Order.{Ord}
use ayatori.Entities.Tags.{scalar, ScalarTag}
use ayatori.Entities.Errors.{ok, bind-ok}
use ayatori.Entities.Params.{SessionId, SessionParameters}
use ayatori.Entities.Value.{valid}
use ayatori.Entities.Function.{AssociatedData}
use ayatori.Graph.AnyNode.{AnyNode, store_in}
use ayatori.Graph.AnyNode.Tree.{flattened}
use ayatori.Graph.AnyNode.Subtree.{find_subnode}
use ayatori.Graph.AnyNode.Subtree.Found.{find_stored_in_sound}
use ayatori.Graph.Constructors.Call.{ExecutableProtocol, build_output}
use ayatori.Execution.Evidence.{ThirdPartyErrorEvidence}
use ayatori.Execution.Evidence.Verify.{verify_at, verify_third_party}

module _ {P : SessionParameters} where
  verify_at-valid :
      (session_id : SessionId) (guilty_party : P.Verifier) (associated_data : AssociatedData)
      (found : Option (AnyNode P)) (tag : ScalarTag)
      → ((node : AnyNode P) → found ≡ some node → store_in node ≡ scalar tag)
      → ¬ (verify_at session_id guilty_party associated_data found ≡ ok valid)
  unfolding verify_at store_in
  verify_at-valid session_id guilty_party associated_data none tag stored h = ground (arith, h)
  verify_at-valid session_id guilty_party associated_data (some node) tag stored h =
      ground (arith, h, stored node refl)

  -- A third-party error that a scalar node has run into is never proved by its evidence: the verdict is not
  -- `valid`, whatever the protocol and the error are.
  pub verify_third_party_of_scalar :
      ⦃o : Ord P.Verifier⦄ (protocol : ExecutableProtocol P) (e : ThirdPartyErrorEvidence P)
      (session_id : SessionId) (guilty_party : P.Verifier) (shared_data : protocol.SharedData)
      (tag : ScalarTag)
      → e.failed_at ≡ scalar tag
      → ¬ (verify_third_party protocol e session_id guilty_party shared_data ≡ ok valid)
  unfolding verify_third_party find_subnode
  verify_third_party_of_scalar protocol e session_id guilty_party shared_data tag at h =
      let built =
        build_output (protocol.composable) (e.reported_by) (protocol.make_build_data shared_data)
          zero in
      let p = bind-ok built _ valid h in
      verify_at-valid session_id guilty_party (e.error.associated_data)
        (find_subnode p.0.0 (e.failed_at)) tag
        (λ node k. find_stored_in_sound (flattened p.0.0) (e.failed_at) node k ∙ at) p.2
