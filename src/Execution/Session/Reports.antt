-- ===== src/Execution/Session/Reports.antt =====
-- ayatori/src/execution/session.rs: the states of a session that its user sees, and its report. The
-- type of the output, and the downcast to it, are those of the protocol.
pub mod States
pub mod Outcomes
pub mod Updates
use ayatori.Prelude.{String, List, Option, none, some}
use ayatori.Collections.Order.{Ord}
use ayatori.Collections.BTreeMap.{BTreeMap}
use ayatori.Entities.Tags.{FullName, ScalarTag, MappingTag, AnyTag}
use ayatori.Entities.Errors.{Result, ok, ◌>>=◌, RuntimeError, SpuriousError}
use ayatori.Entities.Params.{SessionParameters}
use ayatori.Entities.Value.{Value, EvidenceVerdict, downcast_verdict}
use ayatori.Execution.Storage.{get_scalar}
use ayatori.Execution.Update.{SessionUpdate}
use ayatori.Execution.Evidence.{Evidence}
use ayatori.Execution.Session.{
  Session, AddSessionUpdate, MessageAttributableError, state_did_not_change, impossible_to_collect,
  message_attributable_error, with_update_inner,
}

pub data SessionOutcome (Output : Type 0) : Type 0 where
  success : Output → SessionOutcome Output
  manually_terminated : SessionOutcome Output
  unfinishable : List ScalarTag → SessionOutcome Output
  spurious_error : AnyTag → SpuriousError → SessionOutcome Output

pub record SessionReport (P : SessionParameters) (Output : Type 0) : Type 0 where
  pub outcome : SessionOutcome Output
  pub provable_errors : BTreeMap P.Verifier (Evidence P)
  pub attributable_errors : BTreeMap P.Verifier MappingTag
  pub external_bans : BTreeMap P.Verifier String

pub data SessionState (P : SessionParameters) (Output : Type 0) : Type 0 where
  in_progress : Session P → SessionState P Output
  in_progress_with_message_error : Session P → MessageAttributableError → SessionState P Output
  reached_output : Session P → SessionState P Output
  unfinishable : SessionReport P Output → SessionState P Output

module _ {P : SessionParameters} {Output : Type 0} where
  pub make_report : Session P → SessionOutcome Output → SessionReport P Output
  make_report s outcome = record {
    outcome = outcome;
    provable_errors = s.provable_errors;
    attributable_errors = s.attributable_errors;
    external_bans = s.external_bans;
  }

  pub terminate : Session P → SessionReport P Output
  terminate s = make_report s manually_terminated

  pub report_success : SessionReport P Output → Option Output
  report_success r = elim r.outcome [
    | success output ↦ some output
    | manually_terminated ↦ none
    | unfinishable tags ↦ none
    | spurious_error tag e ↦ none
  ]

  pub get_output :
      Session P → FullName → (Value P → Result RuntimeError Output) → Result RuntimeError Output
  get_output s output_tag downcast = do
    value ← get_scalar s.storage (ScalarTag.computed output_tag)
    downcast value

  pub finalize_with_success :
      Session P
      → (Value P → Result RuntimeError Output)
      → Result RuntimeError (SessionReport P Output)
  finalize_with_success s downcast = do
    output ← get_output s s.rules.output_tag downcast
    ok (make_report s (success output))

  unfoldable pub state_of : Session P × AddSessionUpdate → SessionState P Output
  state_of (s, state_did_not_change) = in_progress s
  state_of (s, AddSessionUpdate.reached_output) = reached_output s
  state_of (s, impossible_to_collect tags) =
      unfinishable (make_report s (SessionOutcome.unfinishable tags))
  state_of (s, message_attributable_error e) = in_progress_with_message_error s e
  state_of (s, AddSessionUpdate.spurious_error store_in e) =
      unfinishable (make_report s (spurious_error store_in e))

  unfoldable pub with_update :
      ⦃o : Ord P.Verifier⦄
      → Session P
      → SessionUpdate P
      → Result RuntimeError (SessionState P Output)
  unfolding state_of
  with_update s update = do updated ← with_update_inner s update; ok (state_of updated)

pub finalize_with_evidence_verdict :
    {P : SessionParameters} → Session P → Result RuntimeError EvidenceVerdict
finalize_with_evidence_verdict s = get_output s s.rules.output_tag downcast_verdict
