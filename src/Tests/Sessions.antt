-- ===== src/Tests/Sessions.antt =====
-- Inputs of the theorems about ayatori/src/execution/session.rs, and about the replay of signed
-- values of ayatori/src/execution/evidence.rs.
use ayatori.Prelude.{◌≡◌, ◌↔◌, ℕ, ◌<◌, ◌+◌, ◌≤◌, refl, ap, List, [], ◌∷◌, some, true, false, arith}
use ayatori.Collections.Order.{nat_ord}
use ayatori.Collections.BTreeMap
use ayatori.Entities.Tags.{MappingTag}
use ayatori.Entities.Errors.{Result, ok, RuntimeError}
use ayatori.Entities.Message.{VerifiedValue}
use ayatori.Entities.Message.Signing.{stamp}
use ayatori.Entities.Value.{EvidenceVerdict, valid, verified_value}
use ayatori.Execution.Storage
use ayatori.Execution.Storage.{Storage, get_elem}
use ayatori.Execution.Preprocess
use ayatori.Execution.Preprocess.{PreprocessMessageTask}
use ayatori.Execution.Preprocess.Acceptance.{IsAcceptable}
use ayatori.Execution.Evidence.{EvidenceKind, new_evidence, new_conflicting, verify_conflicting}
use ayatori.Execution.Task.{DeterministicTask, execute}
use ayatori.Execution.Session.{
  Session, AddSessionUpdate, state_did_not_change, message_attributable_error, duplicate_messages,
  conflict, with_update_inner,
}
use ayatori.Execution.Session.Messages.{IsAuthentic, conflict_is_recorded, duplicate_is_reported}
use ayatori.Execution.Session.Elements.{writes, Extends, with_update_inner-Extends}
use ayatori.Execution.Session.Authentic.{StoresAuthentic, execute-StoresAuthentic}
use ayatori.Execution.Session.Reports.{SessionState, in_progress}
use ayatori.Flat.Ruleset.Pending.{pending}
use ayatori.Execution.Session.Weight.{weight}
use ayatori.Execution.Session.Reproduction.{run_tasks}
use ayatori.Execution.Session.Reproduction.Termination.{run_tasks-total}
use ayatori.Tests.Data.{
  params, name_of, session_id, session_data, signed_by, verified_from, no_rules, session_with,
}

abbrev echo : MappingTag
echo = MappingTag.remote_signed (name_of "echo")

abbrev task_for : ℕ → PreprocessMessageTask params
task_for value = record {
  session_data = session_data;
  message_id = 9 ∷ [];
  signed_value = signed_by 2 "echo" (value ∷ []);
}

abbrev fresh : Session params
fresh = session_with Storage.new no_rules

abbrev waiting : Session params
waiting = record fresh { preprocessing_tasks = task_for 5 ∷ task_for 6 ∷ [] }

weight-waiting : weight waiting < 3
unfolding weight pending ayatori.Prelude.total
weight-waiting = omega arith

run_tasks-total_example :
    (result : Result RuntimeError EvidenceVerdict) × (run_tasks 3 waiting ≡ some result)
run_tasks-total_example = run_tasks-total 3 waiting weight-waiting

abbrev first : VerifiedValue params
first = verified_from 2 "echo" (5 ∷ []) 8

-- The session after the party's first value was stored.
abbrev received_once : Session params
received_once =
    session_with (record { scalars = []; mappings = (echo, (2, verified_value first) ∷ []) ∷ [] })
      no_rules

stored_first : get_elem received_once.storage echo 2 ≡ ok (verified_value first)
unfolding get_elem Storage.get_mapping BTreeMap.get ayatori.Entities.Tags.MappingTag_discrete
    ayatori.Prelude.ℕ_discrete
stored_first = refl

first-IsAuthentic : IsAuthentic session_data (name_of "echo") 2 first
unfolding ayatori.Entities.Message.verify_inner ayatori.Entities.Message.verify_signature
    ayatori.Entities.Message.update_with_value_and_metadata
    ayatori.Entities.Message.update_with_hash_and_metadata ayatori.Entities.Message.unverify
first-IsAuthentic = (refl, refl, refl, refl)

acceptable : (value : ℕ) → IsAcceptable (task_for value)
unfolding ayatori.Collections.BTreeSet.contains ayatori.Prelude.ℕ_discrete
    Preprocess.destination_is_local ayatori.Entities.Message.verify_inner
    ayatori.Entities.Message.verify_signature
    ayatori.Entities.Message.update_with_value_and_metadata
    ayatori.Entities.Message.update_with_hash_and_metadata
acceptable value = (refl, refl, refl, refl)

differs : conflict first (stamp (signed_by 2 "echo" (6 ∷ [])) (9 ∷ [])) ≡ true
unfolding conflict ayatori.Entities.Params.metadata_discrete stamp
differs = refl

equals : conflict first (stamp (signed_by 2 "echo" (5 ∷ [])) (9 ∷ [])) ≡ false
unfolding conflict ayatori.Entities.Params.metadata_discrete stamp
equals = refl

conflict_is_recorded_example :
    let e = new_conflicting first (stamp (signed_by 2 "echo" (6 ∷ [])) (9 ∷ [])) in
    ((s' : Session params) × (change : AddSessionUpdate) × (with_update_inner received_once
          (Preprocess.execute (task_for 6))
        ≡ ok (s', change))
      × (BTreeMap.get s'.provable_errors 2
          ≡ some (new_evidence session_id 2 (EvidenceKind.conflicting_messages e))))
    × ((verify_conflicting e session_id 2 ≡ ok valid)
        ↔ (first.metadata ≡ (signed_by 2 "echo" (6 ∷ [])).metadata))
conflict_is_recorded_example =
    conflict_is_recorded received_once (task_for 6) first refl (acceptable 6) stored_first
      first-IsAuthentic differs

duplicate_is_reported_example :
    with_update_inner received_once (Preprocess.execute (task_for 5))
    ≡ ok (received_once, message_attributable_error (duplicate_messages (8 ∷ []) (8 ∷ [])))
duplicate_is_reported_example =
    duplicate_is_reported received_once (task_for 5) first (acceptable 5) stored_first equals

abbrev first_task : DeterministicTask params
first_task = DeterministicTask.preprocess_message (task_for 5)

abbrev after_first : Session params
after_first =
    session_with
      (record {
        scalars = [];
        mappings =
            (echo, (2, verified_value (stamp (signed_by 2 "echo" (5 ∷ [])) (9 ∷ []))) ∷ []) ∷ [];
      })
      no_rules

first_taken : with_update_inner fresh (execute first_task) ≡ ok (after_first, state_did_not_change)
unfolding with_update_inner execute Preprocess.execute ayatori.Collections.BTreeSet.contains
    ayatori.Prelude.ℕ_discrete ayatori.Entities.Params.Bytes_discrete
    ayatori.Entities.Message.verify ayatori.Entities.Message.verify_inner
    ayatori.Entities.Message.verify_signature
    ayatori.Entities.Message.update_with_value_and_metadata
    ayatori.Entities.Message.update_with_hash_and_metadata
    ayatori.Execution.Session.try_add_verified_value get_elem Storage.get_mapping BTreeMap.get
    Storage.new ayatori.Execution.Session.add_element BTreeMap.contains_key BTreeMap.get_or
    BTreeMap.insert BTreeMap.overwrite BTreeMap.place Preprocess.destination_is_local
    Preprocess.verified_update Storage.ok_or Storage.set_elem Storage.stored_once
    ayatori.Flat.Ruleset.update_with_element_ready stamp
first_taken = refl

nothing_stored : StoresAuthentic fresh
unfolding get_elem Storage.get_mapping BTreeMap.get Storage.new Storage.ok_or
nothing_stored name id value h = absurd (ground arith)

made_for_fresh :
    (t : PreprocessMessageTask params)
    → first_task ≡ DeterministicTask.preprocess_message t
    → t.session_data ≡ session_data
made_for_fresh t h = ground arith

execute-StoresAuthentic_example : StoresAuthentic after_first
execute-StoresAuthentic_example =
    execute-StoresAuthentic fresh after_first first_task state_did_not_change made_for_fresh
      first_taken nothing_stored

with_update_inner-Extends_example : Extends fresh after_first (writes (execute first_task))
with_update_inner-Extends_example =
    with_update_inner-Extends fresh after_first (execute first_task) state_did_not_change
      first_taken

abbrev shown : SessionState params ℕ
shown = in_progress after_first
