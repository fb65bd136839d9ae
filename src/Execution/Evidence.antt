-- ===== src/Execution/Evidence.antt =====
-- ayatori/src/execution/evidence.rs: evidence that a party misbehaved, and the check of the evidence
-- that consists of two conflicting messages. The other kinds, the data of which stands here, are checked
-- with a part of the protocol's graph, in `Verify`.
pub mod Conflicts
pub mod Verify
pub mod Termination
pub mod Deserialization
pub mod ThirdParty
use ayatori.Prelude.{String, List, ite}
use ayatori.Collections.Order.{Ord}
use ayatori.Entities.Tags.{MappingTag, AnyTag}
use ayatori.Entities.Errors.{Result, ok, err, RuntimeError, SenderError}
use ayatori.Entities.Params.{Bytes, Bytes_discrete, SessionId, metadata_discrete, SessionParameters}
use ayatori.Entities.Message.{
  SignedValue, VerifiedValue, VerificationError, runtime, signature_mismatch, verify_and_unpack,
  unverify,
}
use ayatori.Entities.Value.{EvidenceVerdict, valid, invalid}
use ayatori.Entities.Function.{SenderErrorWithReveal, StoredThirdPartyError}

pub record ConflictingMessagesEvidence (P : SessionParameters) : Type 0 where
  pub first : SignedValue P
  pub second : SignedValue P

pub record SenderErrorEvidence (P : SessionParameters) : Type 0 where
  pub reported_by : P.Verifier
  pub failed_at : MappingTag
  pub signed_values : List (SignedValue P)
  pub error : SenderError

pub record SenderErrorWithRevealEvidence (P : SessionParameters) : Type 0 where
  pub reported_by : P.Verifier
  pub failed_at : MappingTag
  pub signed_values : List (SignedValue P)
  pub error : SenderErrorWithReveal

pub record ThirdPartyErrorEvidence (P : SessionParameters) : Type 0 where
  pub reported_by : P.Verifier
  pub failed_at : AnyTag
  pub error : StoredThirdPartyError

pub data EvidenceKind (P : SessionParameters) : Type 0 where
  sender_error : SenderErrorEvidence P → EvidenceKind P
  sender_error_with_reveal : SenderErrorWithRevealEvidence P → EvidenceKind P
  conflicting_messages : ConflictingMessagesEvidence P → EvidenceKind P
  third_party_error : ThirdPartyErrorEvidence P → EvidenceKind P

pub record Evidence (P : SessionParameters) : Type 0 where
  pub session_id : SessionId
  pub guilty_party : P.Verifier
  pub kind : EvidenceKind P

compare_values :
    Result VerificationError Bytes
    → Result VerificationError Bytes
    → Result RuntimeError EvidenceVerdict
compare_values (err signature_mismatch) second =
    ok (invalid "Signature mismatch when verifying the first value")
compare_values (err (runtime e)) second = err e
compare_values (ok v) (err signature_mismatch) =
    ok (invalid "Signature mismatch when verifying the second value")
compare_values (ok v) (err (runtime e)) = err e
compare_values (ok v) (ok w) =
    ite (Bytes_discrete v w) (ok (invalid "Serialized values of both messages are equal"))
      (ok valid)

module _ {P : SessionParameters} where
  unfoldable pub new_evidence : SessionId → P.Verifier → EvidenceKind P → Evidence P
  new_evidence session_id guilty_party kind = record {
    session_id = session_id;
    guilty_party = guilty_party;
    kind = kind;
  }

  unfoldable pub new_conflicting : VerifiedValue P → VerifiedValue P → ConflictingMessagesEvidence P
  new_conflicting first second = record { first = unverify first; second = unverify second }

  pub verify_conflicting :
      ⦃o : Ord P.Verifier⦄
      → ConflictingMessagesEvidence P
      → SessionId
      → P.Verifier
      → Result RuntimeError EvidenceVerdict
  unfolding compare_values
  verify_conflicting ⦃o⦄ e session_id guilty_party =
      ite (o.dec guilty_party e.first.source)
        (ite (o.dec guilty_party e.second.source)
          (ite (metadata_discrete o e.first.metadata e.second.metadata)
            (ite (Bytes_discrete e.first.metadata.session_id session_id)
              (compare_values (verify_and_unpack e.first) (verify_and_unpack e.second))
              (ok (invalid "Message's session ID does not match the one stored")))
            (ok (invalid "Message metadatas differ")))
          (ok (invalid "Second message's source does not match `guilty_party`")))
        (ok (invalid "First message's source does not match `guilty_party`"))
