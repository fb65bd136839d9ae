-- ===== src/Execution/Preprocess.antt =====
-- ayatori/src/execution/task.rs: `PreprocessMessageTask`, the checks that every received value
-- passes before it is stored. The texts of the errors leave out the parties that they print.
pub mod Acceptance
use ayatori.Prelude.{Bool, true, not, Option, none, some, if◌then◌else◌, ite}
use ayatori.Collections.Order.{Ord}
use ayatori.Collections.BTreeSet.{BTreeSet, contains}
use ayatori.Entities.Tags.{MappingTag}
use ayatori.Entities.Errors.{Result, ok, err}
use ayatori.Entities.Params.{MessageId, Bytes_discrete, SessionParameters}
use ayatori.Entities.Message.{
  SignedValue, VerifiedValue, VerificationError, runtime, signature_mismatch, verify,
}
use ayatori.Entities.Value.{verified_value}
use ayatori.Execution.Update.{
  SessionData, SessionUpdate, message_error, runtime_error, preprocessed,
}

pub record PreprocessMessageTask (P : SessionParameters) : Type 0 where
  pub session_data : SessionData P
  pub message_id : MessageId
  pub signed_value : SignedValue P

-- The message has no destination, or one that this node manages.
unfoldable pub destination_is_local :
    {PartyId : Type 0} → ⦃o : Ord PartyId⦄ → BTreeSet PartyId → Option PartyId → Bool
destination_is_local local_participants none = true
destination_is_local local_participants (some id) = contains local_participants id

module _ {P : SessionParameters} where
  pub new : SessionData P → MessageId → SignedValue P → PreprocessMessageTask P
  new session_data message_id signed_value = record {
    session_data = session_data;
    message_id = message_id;
    signed_value = signed_value;
  }

  unfoldable pub verified_update :
      MessageId → P.Verifier → Result VerificationError (VerifiedValue P) → SessionUpdate P
  verified_update message_id source (ok v) =
      preprocessed (MappingTag.remote_signed v.metadata.name) source (verified_value v)
  verified_update message_id source (err (runtime e)) = runtime_error e
  verified_update message_id source (err signature_mismatch) =
      message_error message_id "Verification error for a message"

  unfoldable pub execute : ⦃o : Ord P.Verifier⦄ → PreprocessMessageTask P → SessionUpdate P
  unfolding destination_is_local verified_update
  execute t =
      let s = t.signed_value in
      if not (contains t.session_data.participants s.source)
      then message_error t.message_id "A sender is not one of the participants"
      else if not (destination_is_local t.session_data.local_participants s.metadata.destination)
      then message_error t.message_id "A destination is not one of the local participants"
      else ite (Bytes_discrete s.metadata.session_id t.session_data.id)
          (verified_update t.message_id s.source (verify s t.message_id))
          (message_error t.message_id "Invalid session ID")
