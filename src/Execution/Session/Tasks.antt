-- ===== src/Execution/Session/Tasks.antt =====
-- ayatori/src/execution/session.rs: `make_task` of a session. The values to be checked come first, then
-- the actions of the rules.
use ayatori.Prelude.{List, [], ◌∷◌, Option, none, some}
use ayatori.Collections.Order.{Ord}
use ayatori.Entities.Errors.{Result, ok, err, ◌>>=◌, RuntimeError, no_signer}
use ayatori.Entities.Params.{SessionParameters}
use ayatori.Flat.Actions.{
  Action, compute_scalar, compute_mapping_element, serialize_and_sign_scalar,
  serialize_and_sign_element, deserialize_element, send_bc, send_dm, collect, merge_scalar,
}
use ayatori.Flat.Ruleset.{pop_action}
use ayatori.Execution.Task.{
  Task, deterministic, DeterministicTask, from_compute_scalar_action,
  from_compute_mapping_element_action, from_compute_serialize_and_sign_scalar_action,
  from_compute_serialize_and_sign_element_action, from_compute_deserialize_element_action,
  from_send_bc_action, from_send_dm_action, from_merge_scalars_action, from_collect_action,
}
use ayatori.Execution.Session.{Session}

-- `Vec::pop`: the last element is taken out.
unfoldable pub pop_last : {A : Type 0} → List A → List A × Option A
pop_last [] = ([], none)
pop_last (x ∷ xs) =
    let (rest, last) = pop_last xs in
    elim last [ none ↦ ([], some x) | some y ↦ (x ∷ rest, some y) ]

with_signer : {S A : Type 0} → Option S → (S → Result RuntimeError A) → Result RuntimeError A
with_signer none f = err no_signer
with_signer (some signer) f = f signer

module _ {P : SessionParameters} ⦃o : Ord P.Verifier⦄ where
  pub task_of_action : Session P → Action P → Result RuntimeError (Task P)
  unfolding with_signer
  task_of_action s (send_bc action) = from_send_bc_action s.storage action
  task_of_action s (send_dm action) = from_send_dm_action s.storage action
  task_of_action s (compute_scalar action) =
      from_compute_scalar_action s.session_data.id s.verifier s.storage action
  task_of_action s (compute_mapping_element action) =
      from_compute_mapping_element_action s.session_data.id s.verifier s.storage action
  task_of_action s (serialize_and_sign_scalar action) = with_signer s.signer (λ signer.
      from_compute_serialize_and_sign_scalar_action signer s.session_data.id s.storage action)
  task_of_action s (serialize_and_sign_element action) = with_signer s.signer (λ signer.
      from_compute_serialize_and_sign_element_action signer s.session_data.id s.storage action)
  task_of_action s (deserialize_element action) =
      from_compute_deserialize_element_action s.storage action
  task_of_action s (merge_scalar action) = from_merge_scalars_action s.storage action
  task_of_action s (collect action) = from_collect_action s.storage action

  unfoldable pub action_task :
      Session P → Option (Action P) → Session P × Result RuntimeError (Option (Task P))
  action_task s none = (s, ok none)
  action_task s (some action) = (s, do task ← task_of_action s action; ok (some task))

  unfoldable pub make_task : Session P → Session P × Result RuntimeError (Option (Task P))
  unfolding action_task
  make_task s =
      let (tasks, last) = pop_last s.preprocessing_tasks in
      let (rules, action) = pop_action s.rules in
      elim last [
        | some task ↦ (
          record s { preprocessing_tasks = tasks },
          ok (some (deterministic (DeterministicTask.preprocess_message task))),
        )
        | none ↦ action_task (record s { rules = rules }) action
      ]
