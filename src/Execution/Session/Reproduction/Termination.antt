-- ===== src/Execution/Session/Reproduction/Termination.antt =====
-- The replay of signed values of ayatori/src/execution/evidence.rs comes to an end: a fuel that is
-- enough for its loop.
use ayatori.Prelude.{
  ℕ, zero, suc, List, Bool-cases, ◌+◌, ◌≤◌, ◌<◌, ◌≡◌, ◌⊎◌, refl, true, some, arith, inl, inr, ◌∙◌,
  ap, Option, none,
}
use ayatori.Collections.Order.{Ord}
use ayatori.Entities.Errors.{Result, ok, err, RuntimeError}
use ayatori.Entities.Params.{SessionParameters}
use ayatori.Entities.Value.{EvidenceVerdict, invalid}
use ayatori.Execution.Compute.Internal.{internal}
use ayatori.Execution.Preprocess.Acceptance.{execute-cases}
use ayatori.Execution.Update.{
  SessionUpdate, no_action_needed, sent_bc, sent_dm, received, computed_scalar,
  computed_mapping_element, preprocessed, runtime_error, spurious_error, sender_error,
  sender_error_with_reveal, third_party_error, message_error, external_ban, merged_scalars,
  collected,
}
use ayatori.Execution.Task.{Task, send, deterministic, randomized, DeterministicTask, execute}
use ayatori.Execution.Task.Internal.{execute-internal, execute-preprocess_message}
use ayatori.Entities.Params.{Bytes}
use ayatori.Entities.Message.{SignedValue}
use ayatori.Execution.Session.{Session}
use ayatori.Execution.Session.Tasks.{make_task}
use ayatori.Execution.Session.Reports.{
  SessionState, in_progress, in_progress_with_message_error, reached_output, unfinishable,
  with_update,
}
use ayatori.Execution.Session.Reports.States.{with_update-Shows}
use ayatori.Execution.Session.Weight.{
  weight, made, incoming, weight-make_task, weight-with_update_inner,
}
use ayatori.Execution.Session.Reproduction.{
  run_from, run_evidence_verification_session, all_from, all_addressed_to, add_values, Next,
  continue_with, return, after_update, after_task, run_tasks,
}

module _ {P : SessionParameters} where
  incoming-internal : (u : SessionUpdate P) → internal u ≡ true → incoming u ≡ 0
  unfolding incoming internal
  incoming-internal no_action_needed h = refl
  incoming-internal (sent_bc n) h = refl
  incoming-internal (sent_dm n id) h = refl
  incoming-internal (received id m) h = absurd (ground arith)
  incoming-internal (computed_scalar t v) h = refl
  incoming-internal (computed_mapping_element t id v) h = refl
  incoming-internal (preprocessed t id v) h = refl
  incoming-internal (runtime_error e) h = refl
  incoming-internal (spurious_error t e) h = refl
  incoming-internal (sender_error t id e on_error) h = refl
  incoming-internal (sender_error_with_reveal t id e on_error) h = refl
  incoming-internal (third_party_error t e) h = refl
  incoming-internal (message_error id d) h = refl
  incoming-internal (external_ban id reason) h = refl
  incoming-internal (merged_scalars n v) h = refl
  incoming-internal (collected t v) h = refl

  in_progress-after_update :
      (r : Result RuntimeError (SessionState P (Unit {0}))) (s : Session P)
      → after_update r ≡ continue_with s
      → r ≡ ok (in_progress s)
  unfolding after_update
  in_progress-after_update (err e) s h = absurd (ground arith)
  in_progress-after_update (ok (in_progress s')) s h = ground arith
  in_progress-after_update (ok (in_progress_with_message_error s' e)) s h = absurd (ground arith)
  in_progress-after_update (ok (reached_output s')) s h = absurd (ground arith)
  in_progress-after_update (ok (unfinishable report)) s h = absurd (ground arith)

module _ {P : SessionParameters} ⦃o : Ord P.Verifier⦄ where
  incoming-execute : (task : DeterministicTask P) → incoming (execute task) ≡ 0
  unfolding incoming
  incoming-execute task = elim (execute-internal task) [
    | inr h ↦ incoming-internal (execute task) h
    | inl (t, e) ↦ elim (execute-cases t) [
      | inl a ↦ ap incoming (ap execute e ∙ (execute-preprocess_message t ∙ a.1))
      | inr a ↦ ap incoming (ap execute e ∙ (execute-preprocess_message t ∙ a.1.1))
    ]
  ]

  weight-after_update :
      (s s' : Session P) (task : DeterministicTask P)
      → after_update (with_update s (execute task)) ≡ continue_with s'
      → weight s' ≤ weight s
  weight-after_update s s' task h =
      let (s'', change, taken, shown) =
        with_update-Shows (Unit {0}) s (execute task) (in_progress s')
          (in_progress-after_update _ s' h) in
      let bound = weight-with_update_inner s s'' (execute task) change taken in
      let same : weight s' ≡ weight s'' = ap weight shown in
      omega (arith, bound, same, incoming-execute task)

  weight-after_task :
      (made_task : Session P × Result RuntimeError (Option (Task P))) (n : ℕ) (s' : Session P)
      → weight made_task.0 + made made_task.1 ≤ n
      → after_task made_task ≡ continue_with s'
      → suc (weight s') ≤ n
  unfolding after_task made
  weight-after_task (s, err e) n s' w h = absurd (ground arith)
  weight-after_task (s, ok none) n s' w h = absurd (ground arith)
  weight-after_task (s, ok (some (send task))) n s' w h = absurd (ground arith)
  weight-after_task (s, ok (some (randomized task))) n s' w h = absurd (ground arith)
  weight-after_task (s, ok (some (deterministic task))) n s' w h =
      omega (arith, weight-after_update s s' task h)

  Next-cases :
      (n : Next P)
      → ((s : Session P) × (n ≡ continue_with s))
        ⊎ ((r : Result RuntimeError EvidenceVerdict) × (n ≡ return r))
  Next-cases (continue_with s) = inl (s, refl)
  Next-cases (return r) = inr (r, refl)

  -- The replay gives a verdict, or the error that a task meets, within one more step than the session
  -- has values to check and actions pending.
  pub run_tasks-total :
      (fuel : ℕ) (s : Session P)
      → weight s < fuel
      → (result : Result RuntimeError EvidenceVerdict) × (run_tasks fuel s ≡ some result)
  unfolding run_tasks
  run_tasks-total zero s h = absurd (omega (arith, h))
  run_tasks-total (suc fuel) s h = elim (Next-cases (after_task (make_task s))) [
    | inr (r, e) ↦ (r, rw (e, run_tasks) refl)
    | inl (s', e) ↦
        let smaller = weight-after_task (make_task s) (weight s) s' (weight-make_task s) e in
        let (r, done) = run_tasks-total fuel s' (omega (arith, smaller, h)) in
        (r, rw (e, run_tasks) done)
  ]

  -- The values to check and the actions pending in the session, if there is one.
  work_in : Result RuntimeError (Session P) → ℕ
  work_in (err e) = 0
  work_in (ok s) = weight s

  run_from-total :
      (fuel : ℕ) (r : Result RuntimeError (Session P))
      → work_in r < fuel
      → (result : Result RuntimeError EvidenceVerdict) × (run_from fuel r ≡ some result)
  unfolding run_from work_in
  run_from-total fuel (err e) h = (err e, refl)
  run_from-total fuel (ok s) h = run_tasks-total fuel s h

  -- The work of a replay: what the session has to do once the values are added.
  pub replay_work : Bytes → Session P → List (SignedValue P) → ℕ
  unfolding work_in
  replay_work message_id s signed_values = work_in (add_values message_id s signed_values)

  -- The replay of any values in any session gives a verdict or an error, on more fuel than its work.
  pub run_evidence_verification_session-total :
      (fuel : ℕ) (message_id : Bytes) (s : Session P) (session_verifier guilty_party : P.Verifier)
      (signed_values : List (SignedValue P))
      → replay_work message_id s signed_values < fuel
      → (result : Result RuntimeError EvidenceVerdict) × (run_evidence_verification_session fuel
            message_id s session_verifier guilty_party signed_values
          ≡ some result)
  unfolding run_evidence_verification_session replay_work
  run_evidence_verification_session-total fuel message_id s session_verifier guilty_party
        signed_values h =
      elim (Bool-cases (all_from guilty_party signed_values)) [
        | inr other ↦
            (ok (invalid "The message source is not that of the guilty party"), rw other refl)
        | inl from_guilty ↦ elim (Bool-cases (all_addressed_to session_verifier signed_values)) [
          | inr other ↦ (
            ok (invalid "The destination of stored messages differs from the ID of the party"),
            rw (from_guilty, other) refl,
          )
          | inl addressed ↦
              let run = run_from-total fuel (add_values message_id s signed_values) h in
              (run.0, rw (from_guilty, addressed) run.1)
        ]
      ]
