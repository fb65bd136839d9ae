-- ===== src/Execution/Session/Reproduction.antt =====
-- ayatori/src/execution/evidence.rs: `run_evidence_verification_session`, which replays signed values
-- in a session of the part of the graph where the error occurred. Its loop is on fuel.
pub mod Termination
use ayatori.Prelude.{
  ℕ, zero, suc, Bool, true, false, List, [], ◌∷◌, Option, none, some, not, if◌then◌else◌, ite,
}
use ayatori.Collections.Order.{Ord}
use ayatori.Entities.Errors.{
  Result, ok, err, ◌>>=◌, RuntimeError, unexpected_state, unexpected_send,
}
use ayatori.Entities.Params.{Bytes, SessionParameters}
use ayatori.Entities.Message.{SignedValue, new_message}
use ayatori.Entities.Value.{EvidenceVerdict, invalid}
use ayatori.Execution.Update.{add_message}
use ayatori.Execution.Task.{Task, send, deterministic, randomized, execute}
use ayatori.Execution.Session.{Session}
use ayatori.Execution.Session.Tasks.{make_task}
use ayatori.Execution.Session.Reports.{
  SessionState, in_progress, in_progress_with_message_error, reached_output, unfinishable,
  with_update, finalize_with_evidence_verdict,
}

-- The loop goes on with a session, or returns.
pub data Next (P : SessionParameters) : Type 0 where
  continue_with : Session P → Next P
  return : Result RuntimeError EvidenceVerdict → Next P

addressed_to : {PartyId : Type 0} → ⦃o : Ord PartyId⦄ → PartyId → Option PartyId → Bool
addressed_to id none = true
addressed_to ⦃o⦄ id (some destination) = ite (o.dec destination id) true false

module _ {P : SessionParameters} where
  -- `SessionState` has no output here: the verdict is taken from the session.
  after_update : Result RuntimeError (SessionState P (Unit {0})) → Next P
  after_update (err e) = return (err e)
  after_update (ok (in_progress s)) = continue_with s
  after_update (ok (in_progress_with_message_error s e)) =
      return (ok (invalid "Unexpected message-attributable error"))
  after_update (ok (reached_output s)) = return (finalize_with_evidence_verdict s)
  after_update (ok (unfinishable report)) = return (ok (invalid "The execution was unfinishable"))

  after_adding : Result RuntimeError (SessionState P (Unit {0})) → Result RuntimeError (Session P)
  after_adding (err e) = err e
  after_adding (ok (in_progress s)) = ok s
  after_adding (ok _) = err unexpected_state

module _ {P : SessionParameters} ⦃o : Ord P.Verifier⦄ where
  pub after_task : Session P × Result RuntimeError (Option (Task P)) → Next P
  unfolding after_update
  after_task (s, err e) = return (err e)
  after_task (s, ok none) =
      return (ok (invalid "All tasks were executed, but the session did not reached the result"))
  after_task (s, ok (some (deterministic task))) = after_update (with_update s (execute task))
  after_task (s, ok (some (randomized task))) =
      return (ok (invalid "Unexpected RNG-based computation when reproducing the failure"))
  after_task (s, ok (some (send task))) = return (err unexpected_send)

  pub run_tasks : ℕ → Session P → Option (Result RuntimeError EvidenceVerdict)
  run_tasks zero s = none
  run_tasks (suc fuel) s = elim (after_task (make_task s)) [
    | return result ↦ some result
    | continue_with s' ↦ run_tasks fuel s'
  ]

  all_from : P.Verifier → List (SignedValue P) → Bool
  all_from guilty_party [] = true
  all_from guilty_party (v ∷ vs) =
      ite (o.dec v.source guilty_party) (all_from guilty_party vs) false

  all_addressed_to : P.Verifier → List (SignedValue P) → Bool
  all_addressed_to id [] = true
  all_addressed_to id (v ∷ vs) =
      if addressed_to id v.metadata.destination then all_addressed_to id vs else false

  -- The session with the values added, in one message with the identifier that the usize 0 gives.
  add_values : Bytes → Session P → List (SignedValue P) → Result RuntimeError (Session P)
  unfolding after_adding
  add_values message_id s [] = ok s
  add_values message_id s (v ∷ vs) = do
    message ← new_message (v ∷ vs)
    after_adding (with_update s (add_message message_id message))

  run_from : ℕ → Result RuntimeError (Session P) → Option (Result RuntimeError EvidenceVerdict)
  run_from fuel (err e) = some (err e)
  run_from fuel (ok s) = run_tasks fuel s

  pub run_evidence_verification_session :
      ℕ
      → Bytes
      → Session P
      → P.Verifier
      → P.Verifier
      → List (SignedValue P)
      → Option (Result RuntimeError EvidenceVerdict)
  unfolding all_from all_addressed_to add_values run_from
  run_evidence_verification_session fuel message_id s session_verifier guilty_party signed_values =
      if not (all_from guilty_party signed_values)
      then some (ok (invalid "The message source is not that of the guilty party"))
      else if not (all_addressed_to session_verifier signed_values)
      then some (ok (invalid "The destination of stored messages differs from the ID of the party"))
      else run_from fuel (add_values message_id s signed_values)
