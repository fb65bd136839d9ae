-- ===== src/Execution/Evidence/Deserialization.antt =====
-- ayatori/src/execution/evidence.rs: the evidence of a message that could not be deserialized. Its replay
-- asks for a mapping node, and messages are deserialized by nodes of another kind.
use ayatori.Prelude.{ℕ, ◌≡◌, refl, Option, none, some, inl, inr, arith}
use ayatori.Collections.Order.{Ord}
use ayatori.Entities.Tags.{FullName, MappingTag, mapping}
use ayatori.Entities.Errors.{ok, err, RuntimeError, Result-cases, bind-ok}
use ayatori.Entities.Params.{Bytes, SessionId, SessionParameters}
use ayatori.Entities.Function.{AssociatedData}
use ayatori.Graph.AnyNode.{NodeId, AnyNode, store_in}
use ayatori.Graph.AnyNode.Tree.{flattened}
use ayatori.Graph.AnyNode.Subtree.{find_subnode}
use ayatori.Graph.AnyNode.Subtree.Found.{find_stored_in_sound}
use ayatori.Graph.Reproduction.{verification_node, found_node, get_reproduction_subtree}
use ayatori.Graph.Constructors.Call.{ExecutableProtocol}
use ayatori.Execution.Session.{Session}
use ayatori.Execution.Session.Build.{make_tree, new_with_reproduction_subtree}
use ayatori.Execution.Evidence.{SenderErrorEvidence}
use ayatori.Execution.Evidence.Verify.{replay, verify_sender_error}

module _ {P : SessionParameters} where
  verification_node-received :
      (i : NodeId) (d : Option AssociatedData) (node made : AnyNode P) (name : FullName)
      → store_in node ≡ mapping (MappingTag.received name)
      → ¬ (verification_node i d node ≡ ok made)
  unfolding verification_node store_in
  verification_node-received i none node made name h k = ground (arith, h, k)
  verification_node-received i (some x) node made name h k = ground (arith, h, k)

  found_node-ok :
      (tag : MappingTag) (found : Option (AnyNode P)) (node : AnyNode P)
      → found_node tag found ≡ ok node
      → found ≡ some node
  unfolding found_node
  found_node-ok tag found node h = ground (arith, h)

module _ {P : SessionParameters} ⦃o : Ord P.Verifier⦄ where
  get_reproduction_subtree-received :
      (i : NodeId) (root : AnyNode P) (name : FullName) (guilty_party : P.Verifier)
      (d : Option AssociatedData) (made : AnyNode P × NodeId)
      → ¬ (get_reproduction_subtree i root (MappingTag.received name) guilty_party d ≡ ok made)
  unfolding get_reproduction_subtree find_subnode
  get_reproduction_subtree-received i root name guilty_party d made h =
      let tag = mapping (MappingTag.received name) in
      let found =
        bind-ok (found_node (MappingTag.received name) (find_subnode root tag)) _ made h in
      let verification = bind-ok (verification_node i d found.0) _ made found.2 in
      verification_node-received i d found.0 verification.0 name
        (find_stored_in_sound (flattened root) tag found.0
          (found_node-ok (MappingTag.received name) (find_subnode root tag) found.0 found.1))
        verification.1

module _ {P : SessionParameters} ⦃o : Ord P.Verifier⦄ (protocol : ExecutableProtocol P) where
  new_with_reproduction_subtree-received :
      (id : SessionId) (name : FullName) (reported_by guilty_party : P.Verifier)
      (shared_data : protocol.SharedData) (d : Option AssociatedData) (s : Session P)
      → ¬ (
          new_with_reproduction_subtree protocol id
            (MappingTag.received name)
            reported_by
            guilty_party
            shared_data
            d
          ≡ ok s)
  unfolding new_with_reproduction_subtree
  new_with_reproduction_subtree-received id name reported_by guilty_party shared_data d s h =
      let tree = bind-ok (make_tree protocol reported_by shared_data) _ s h in
      let sub =
        bind-ok
          (get_reproduction_subtree tree.0.1 tree.0.0 (MappingTag.received name) guilty_party d) _ s
          tree.2 in
      get_reproduction_subtree-received tree.0.1 tree.0.0 name guilty_party d sub.0 sub.1

  -- The verification of the evidence that a message could not be deserialized gives an error and no
  -- verdict, whatever the protocol, the messages and the fuel are.
  pub verify_sender_error_of_received :
      (fuel : ℕ) (message_id : Bytes) (e : SenderErrorEvidence P) (session_id : SessionId)
      (guilty_party : P.Verifier) (shared_data : protocol.SharedData) (name : FullName)
      → e.failed_at ≡ MappingTag.received name
      → (problem : RuntimeError) × (verify_sender_error protocol fuel message_id e session_id
            guilty_party shared_data
          ≡ some (err problem))
  unfolding verify_sender_error replay
  verify_sender_error_of_received fuel message_id e session_id guilty_party shared_data name at =
      elim (Result-cases (
        new_with_reproduction_subtree protocol session_id (MappingTag.received name) e.reported_by
          guilty_party shared_data none)) [
            | inl (s, made) ↦ absurd (
                new_with_reproduction_subtree-received session_id name e.reported_by guilty_party
                  shared_data none s made)
            | inr (problem, failed) ↦ (problem, rw (at, failed) refl)
          ]
