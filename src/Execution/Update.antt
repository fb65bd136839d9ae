-- ===== src/Execution/Update.antt =====
-- ayatori/src/execution/task.rs, the results of tasks (`SessionUpdate` wraps `SessionUpdateEnum`),
-- and from ayatori/src/execution/session.rs what every task of a session is given.
use ayatori.Prelude.{String}
use ayatori.Collections.BTreeSet.{BTreeSet}
use ayatori.Entities.Tags.{FullName, ScalarTag, MappingTag, AnyTag}
use ayatori.Entities.Errors.{RuntimeError, SpuriousError, SenderError}
use ayatori.Entities.Params.{SessionId, MessageId, SessionParameters}
use ayatori.Entities.Message.{Message}
use ayatori.Entities.Value.{Value}
use ayatori.Entities.Function.{SenderErrorWithReveal, ThirdPartyError}
use ayatori.Flat.Actions.{OnError}

pub record SessionData (P : SessionParameters) : Type 0 where
  pub id : SessionId
  pub participants : BTreeSet P.Verifier
  pub local_participants : BTreeSet P.Verifier

pub data SessionUpdate (P : SessionParameters) : Type 0 where
  no_action_needed : SessionUpdate P
  sent_bc : FullName → SessionUpdate P
  sent_dm : FullName → P.Verifier → SessionUpdate P
  received : MessageId → Message P → SessionUpdate P
  computed_scalar : ScalarTag → Value P → SessionUpdate P
  computed_mapping_element : MappingTag → P.Verifier → Value P → SessionUpdate P
  preprocessed : MappingTag → P.Verifier → Value P → SessionUpdate P
  runtime_error : RuntimeError → SessionUpdate P
  spurious_error : AnyTag → SpuriousError → SessionUpdate P
  sender_error : MappingTag → P.Verifier → SenderError → OnError → SessionUpdate P
  sender_error_with_reveal :
      MappingTag → P.Verifier → SenderErrorWithReveal → OnError → SessionUpdate P
  third_party_error : AnyTag → ThirdPartyError P → SessionUpdate P
  message_error : MessageId → String → SessionUpdate P
  external_ban : P.Verifier → String → SessionUpdate P
  merged_scalars : FullName → Value P → SessionUpdate P
  collected : ScalarTag → Value P → SessionUpdate P

module _ {P : SessionParameters} where
  pub ban_party : P.Verifier → String → SessionUpdate P
  ban_party party_id reason = external_ban party_id reason

  pub add_message : MessageId → Message P → SessionUpdate P
  add_message id message = received id message
