-- ===== src/Execution/Session.antt =====
-- ayatori/src/execution/session.rs: the state of a protocol being executed. An update is applied to
-- a session that is given up where the update fails, so an error carries no session; a task is made
-- from a session that stays, so there an error comes with it.
pub mod Inputs
pub mod Reports
pub mod Reproduction
pub mod Build
pub mod Messages
pub mod Elements
pub mod Tasks
pub mod Authentic
pub mod Weight
use ayatori.Prelude.{
  Bool, String, List, [], ◌∷◌, ◌++◌, Option, none, some, ite, map, ◌||◌, not, if◌then◌else◌,
}
use ayatori.Collections.Order.{Ord, same}
use ayatori.Collections.BTreeSet.{BTreeSet}
use ayatori.Collections.BTreeMap.{BTreeMap, insert}
use ayatori.Entities.Tags.{FullName, ScalarTag, MappingTag, AnyTag}
use ayatori.Entities.Errors.{Result, ok, err, ◌>>=◌, ◌>>◌, RuntimeError, no_signer, SpuriousError}
use ayatori.Entities.Params.{Bytes_discrete, MessageId, metadata_discrete, SessionParameters}
use ayatori.Entities.Message.{SignedValue, VerifiedValue, Message, into_values, unverify}
use ayatori.Entities.Value.{Value, unit_value, downcast_verified}
use ayatori.Entities.Function.{unpack}
use ayatori.Flat.Actions.{
  Action, OnError, collect_evidence, escalate, compute_scalar, compute_mapping_element,
  serialize_and_sign_scalar, serialize_and_sign_element, deserialize_element, send_bc, send_dm,
  collect, merge_scalar,
}
use ayatori.Flat.Ruleset
use ayatori.Flat.Ruleset.{Ruleset, RulesetStateChange, not_changed, pop_action}
use ayatori.Execution.Storage.{Storage, set_scalar, set_elem, get_elem}
use ayatori.Execution.Update.{
  SessionData, SessionUpdate, no_action_needed, sent_bc, sent_dm, received, computed_scalar,
  computed_mapping_element, preprocessed, runtime_error, sender_error, sender_error_with_reveal,
  third_party_error, message_error, external_ban, merged_scalars, collected,
}
use ayatori.Execution.Preprocess.{PreprocessMessageTask}
use ayatori.Execution.Preprocess
use ayatori.Execution.Task.{
  Task, deterministic, DeterministicTask, from_compute_scalar_action,
  from_compute_mapping_element_action, from_compute_serialize_and_sign_scalar_action,
  from_compute_serialize_and_sign_element_action, from_compute_deserialize_element_action,
  from_send_bc_action, from_send_dm_action, from_merge_scalars_action, from_collect_action,
}
use ayatori.Execution.Evidence.{Evidence, EvidenceKind, new_evidence, new_conflicting}

pub record Session (P : SessionParameters) : Type 0 where
  -- the fields `ruleset` and, further down, `data`
  pub rules : Ruleset P
  pub storage : Storage P
  pub signer : Option P.Signer
  pub verifier : P.Verifier
  pub session_data : SessionData P
  pub provable_errors : BTreeMap P.Verifier (Evidence P)
  -- the tag that the text of the error names
  pub attributable_errors : BTreeMap P.Verifier MappingTag
  pub external_bans : BTreeMap P.Verifier String
  pub preprocessing_tasks : List (PreprocessMessageTask P)

pub data MessageAttributableError : Type 0 where
  invalid_message : MessageId → String → MessageAttributableError
  duplicate_messages : MessageId → MessageId → MessageAttributableError

pub data AddSessionUpdate : Type 0 where
  state_did_not_change reached_output : AddSessionUpdate
  impossible_to_collect : List ScalarTag → AddSessionUpdate
  message_attributable_error : MessageAttributableError → AddSessionUpdate
  spurious_error : AnyTag → SpuriousError → AddSessionUpdate

pub from_state_change : RulesetStateChange → AddSessionUpdate
from_state_change not_changed = state_did_not_change
from_state_change RulesetStateChange.reached_output = AddSessionUpdate.reached_output
from_state_change (RulesetStateChange.impossible_to_collect tags) =
    AddSessionUpdate.impossible_to_collect tags

module _ {P : SessionParameters} where
  pub add_scalar :
      Session P → ScalarTag → Value P → Result RuntimeError (Session P × AddSessionUpdate)
  add_scalar s store_in value =
      let (storage, stored) = set_scalar s.storage store_in value in
      let (rules, change) = Ruleset.update_with_scalar_ready s.rules store_in in
      do stored; ok (record s { rules = rules; storage = storage }, from_state_change change)

  pub add_message : Session P → MessageId → Message P → Session P × AddSessionUpdate
  add_message s message_id message = (
    record s {
      preprocessing_tasks =
          s.preprocessing_tasks
          ++ map (λ v. Preprocess.new s.session_data message_id v) (into_values message);
    },
    state_did_not_change,
  )

module _ {P : SessionParameters} ⦃o : Ord P.Verifier⦄ where
  unfoldable pub add_element :
      Session P
      → MappingTag
      → P.Verifier
      → Value P
      → Result RuntimeError (Session P × AddSessionUpdate)
  add_element s store_in id value =
      let (storage, stored) = set_elem s.storage store_in id value in
      do
        stored
        ok (
          record s {
            rules = Ruleset.update_with_element_ready s.rules store_in id;
            storage = storage;
          },
          state_did_not_change,
        )

  pub register_provable_error : Session P → Evidence P → Session P × AddSessionUpdate
  register_provable_error s e =
      let (rules, change) = Ruleset.update_with_banned_party s.rules e.guilty_party in
      (
        record s { rules = rules; provable_errors = insert s.provable_errors e.guilty_party e },
        from_state_change change,
      )

  pub register_attributable_error :
      Session P → P.Verifier → MappingTag → Session P × AddSessionUpdate
  register_attributable_error s guilty_party tag =
      let (rules, change) = Ruleset.update_with_banned_party s.rules guilty_party in
      (
        record s {
          rules = rules;
          attributable_errors = insert s.attributable_errors guilty_party tag;
        },
        from_state_change change,
      )

  pub register_banned_party : Session P → P.Verifier → String → Session P × AddSessionUpdate
  register_banned_party s guilty_party reason =
      let (rules, change) = Ruleset.update_with_banned_party s.rules guilty_party in
      (
        record s { rules = rules; external_bans = insert s.external_bans guilty_party reason },
        from_state_change change,
      )

  -- Whether two values that were received for the same name differ.
  unfoldable pub conflict : VerifiedValue P → VerifiedValue P → Bool
  conflict existing new_value =
      not (same (metadata_discrete o) existing.metadata new_value.metadata)
      || not (same Bytes_discrete existing.value new_value.value)

  unfoldable pub received_again :
      Session P → P.Verifier → VerifiedValue P → VerifiedValue P → Session P × AddSessionUpdate
  received_again s id existing new_value =
      if conflict existing new_value
      then register_provable_error s (
          new_evidence s.session_data.id id
            (EvidenceKind.conflicting_messages (new_conflicting existing new_value)))
      else (
        s,
        message_attributable_error (duplicate_messages existing.message_id existing.message_id),
      )

  unfoldable pub try_add_verified_value :
      Session P
      → MappingTag
      → P.Verifier
      → Value P
      → Result RuntimeError (Session P × AddSessionUpdate)
  unfolding received_again
  try_add_verified_value s store_in id value = elim (get_elem s.storage store_in id) [
    | err e ↦ add_element s store_in id value
    | ok existing_value ↦ do
      existing ← downcast_verified existing_value
      new_value ← downcast_verified value
      ok (received_again s id existing new_value)
  ]

  pub collect_values :
      Storage P → P.Verifier → BTreeSet FullName → Result RuntimeError (List (SignedValue P))
  collect_values storage guilty_party [] = ok []
  collect_values storage guilty_party (name ∷ names) =
      let rest = collect_values storage guilty_party names in
      do
        value ← get_elem storage (MappingTag.remote_signed name) guilty_party
        v ← downcast_verified value
        values ← rest
        ok (unverify v ∷ values)

  sender_failed :
      Session P
      → MappingTag
      → P.Verifier
      → OnError
      → (List (SignedValue P) → EvidenceKind P)
      → Result RuntimeError (Session P × AddSessionUpdate)
  sender_failed s store_in guilty_party escalate kind =
      ok (register_attributable_error s guilty_party store_in)
  sender_failed s store_in guilty_party (collect_evidence message_names) kind = do
    signed_values ← collect_values s.storage guilty_party message_names
    ok (
        register_provable_error s
          (new_evidence s.session_data.id guilty_party (kind signed_values)))

  unfoldable pub with_update_inner :
      Session P → SessionUpdate P → Result RuntimeError (Session P × AddSessionUpdate)
  unfolding sender_failed
  with_update_inner s no_action_needed = ok (s, state_did_not_change)
  with_update_inner s (sent_bc store_in) = add_scalar s (ScalarTag.sent store_in) unit_value
  with_update_inner s (sent_dm store_in destination) =
      add_element s (MappingTag.sent store_in) destination unit_value
  with_update_inner s (received id message) = ok (add_message s id message)
  with_update_inner s (runtime_error e) = err e
  with_update_inner s (SessionUpdate.spurious_error store_in e) =
      ok (s, AddSessionUpdate.spurious_error store_in e)
  with_update_inner s (computed_scalar store_in result) = add_scalar s store_in result
  with_update_inner s (collected store_in result) = add_scalar s store_in result
  with_update_inner s (computed_mapping_element store_in index result) =
      add_element s store_in index result
  with_update_inner s (sender_error store_in guilty_party e on_error) =
      sender_failed s store_in guilty_party on_error (λ signed_values.
        EvidenceKind.sender_error (record {
          reported_by = s.verifier;
          failed_at = store_in;
          signed_values = signed_values;
          error = e;
        }))
  with_update_inner s (sender_error_with_reveal store_in guilty_party e on_error) =
      sender_failed s store_in guilty_party on_error (λ signed_values.
        EvidenceKind.sender_error_with_reveal (record {
          reported_by = s.verifier;
          failed_at = store_in;
          signed_values = signed_values;
          error = e;
        }))
  with_update_inner s (third_party_error store_in e) =
      let (guilty_party, stored) = unpack e in
      ok (
        register_provable_error s (
          new_evidence s.session_data.id guilty_party (
            EvidenceKind.third_party_error
              (record { reported_by = s.verifier; failed_at = store_in; error = stored }))))
  with_update_inner s (preprocessed store_in source value) =
      try_add_verified_value s store_in source value
  with_update_inner s (message_error message_id description) =
      ok (s, message_attributable_error (invalid_message message_id description))
  with_update_inner s (external_ban party_id reason) = ok (register_banned_party s party_id reason)
  with_update_inner s (merged_scalars store_in result) =
      add_scalar s (ScalarTag.merged store_in) result
