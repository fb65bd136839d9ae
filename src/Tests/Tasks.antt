-- ===== src/Tests/Tasks.antt =====
-- Inputs of the theorems about the storage, the received values, the messages that are sent and the
-- evidence of ayatori/src/execution, and of the serialization of a message.
use ayatori.Prelude.{
  ◌≡◌, ◌≢◌, ◌↔◌, ◌⊎◌, ℕ, String, refl, sym, List, [], ◌∷◌, Option, none, some, true, false, ite,
  inl, inr, arith,
}
use ayatori.Collections.Order.{nat_ord}
use ayatori.Collections.BTreeSet.{BTreeSet, IsDistinct, contains}
use ayatori.Collections.BTreeMap
use ayatori.Collections.BTreeMap.{BTreeMap}
use ayatori.Entities.Tags.{ScalarTag, MappingTag, ScalarTag_discrete}
use ayatori.Entities.Errors.{Result, ok_injective, ok, err, RuntimeError, wrong_type}
use ayatori.Entities.Params.{Bytes}
use ayatori.Entities.Message.{SignedValue, Message, verify, new_message}
use ayatori.Entities.Message.Signing.{stamp}
use ayatori.Entities.Value.{
  Value, user_value, unit_value, signed_value, verified_value, SerdeAdapter, SerializeArgs, valid,
}
use ayatori.Entities.Function.{is_some, default_serialize_and_sign, default_deserialize}
use ayatori.Entities.Function.RoundTrip.{
  RoundTrips, received_args, default_deserialize-serialize_and_sign,
}
use ayatori.Flat.Actions.{SendBcAction}
use ayatori.Execution.Storage.{Storage, get_scalar, get_elem, set_elem}
use ayatori.Execution.Storage.WriteOnce.{is_ok, get_elem-set_elem}
use ayatori.Execution.Update.{SessionUpdate, sent_bc, preprocessed, message_error}
use ayatori.Execution.Preprocess
use ayatori.Execution.Preprocess.{PreprocessMessageTask}
use ayatori.Execution.Preprocess.Acceptance.{IsAcceptable, execute-cases}
use ayatori.Execution.Send.{SendTask, broadcast_message, from_send_bc_action, into_dms}
use ayatori.Execution.Send.Delivery.{into_dms-from_send_bc_action}
use ayatori.Execution.Evidence.{ConflictingMessagesEvidence, verify_conflicting}
use ayatori.Execution.Evidence.Conflicts.{IsConflict, verify_conflicting_iff}
use ayatori.Execution.Task.{DeterministicTask, execute}
use ayatori.Execution.Task.Internal.{execute-internal}
use ayatori.Execution.Compute.Internal.{internal}
use ayatori.Tests.Data.{
  params, params-SignaturesAreAccepted, name_of, session_id, signed_by, session_data,
}

abbrev echo : MappingTag
echo = MappingTag.remote_signed (name_of "echo")

abbrev sum : ScalarTag
sum = ScalarTag.computed (name_of "sum")

abbrev stored : Storage params
stored = record {
  scalars =
      (ScalarTag.local_signed (name_of "echo"), signed_value (signed_by 1 "echo" (5 ∷ []))) ∷ [];
  mappings = (echo, (2, unit_value) ∷ []) ∷ [];
}

get_elem-set_elem_example :
    (get_elem (set_elem stored echo 3 unit_value).0 echo 3 ≡ ok unit_value)
    × (((set_elem stored echo 3 unit_value).1 ≡ ok tt) ↔ (is_ok (get_elem stored echo 3) ≡ false))
    × ((u : MappingTag) (j : ℕ) (w : Value params)
        → (u ≢ echo) ⊎ (j ≢ 3)
        → (get_elem (set_elem stored echo 3 unit_value).0 u j ≡ ok w)
          ↔ (get_elem stored u j ≡ ok w))
get_elem-set_elem_example = get_elem-set_elem stored echo 3 unit_value

abbrev task : PreprocessMessageTask params
task = record {
  session_data = session_data;
  message_id = 9 ∷ [];
  signed_value = signed_by 2 "echo" (5 ∷ []);
}

execute-cases_example :
    (IsAcceptable task
      × (Preprocess.execute task
          ≡ preprocessed echo 2 (verified_value (stamp (signed_by 2 "echo" (5 ∷ [])) (9 ∷ [])))))
    ⊎ ((¬ IsAcceptable task)
        × ((description : String) × (Preprocess.execute task ≡ message_error (9 ∷ []) description)))
execute-cases_example = execute-cases task

abbrev collect_task : DeterministicTask params
collect_task = DeterministicTask.collect sum unit_value

execute-internal_example :
    ((t : PreprocessMessageTask params) × (collect_task ≡ DeterministicTask.preprocess_message t))
    ⊎ (internal (execute collect_task) ≡ true)
execute-internal_example = execute-internal collect_task

abbrev evidence : ConflictingMessagesEvidence params
evidence = record { first = signed_by 2 "echo" (5 ∷ []); second = signed_by 2 "echo" (6 ∷ []) }

verify_conflicting_iff_example :
    (verify_conflicting evidence session_id 2 ≡ ok valid) ↔ IsConflict evidence session_id 2
verify_conflicting_iff_example = verify_conflicting_iff evidence session_id 2

abbrev broadcast : SendBcAction params
broadcast = record {
  store_in = name_of "sent echo";
  to_send = name_of "echo";
  destinations = 2 ∷ 3 ∷ [];
}

abbrev broadcast_task : SendTask params
broadcast_task = record {
  kind = broadcast_message (name_of "sent echo");
  direct_messages = [];
  broadcast_messages = (2 ∷ 3 ∷ [], signed_by 1 "echo" (5 ∷ [])) ∷ [];
}

abbrev message : Message params
message = record { session_id = session_id; values = signed_by 1 "echo" (5 ∷ []) ∷ [] }

abbrev dms : BTreeMap ℕ (Message params)
dms = (2, message) ∷ (3, message) ∷ []

abbrev update : SessionUpdate params
update = sent_bc (name_of "sent echo")

distinct : IsDistinct broadcast.destinations
unfolding contains ayatori.Prelude.ℕ_discrete
distinct = (refl, (refl, tt))

broadcast_made : from_send_bc_action stored broadcast ≡ ok broadcast_task
unfolding from_send_bc_action get_scalar BTreeMap.get ScalarTag_discrete
    ayatori.Entities.Value.downcast_signed
broadcast_made = refl

broadcast_split : into_dms broadcast_task ≡ ok (update, dms)
unfolding into_dms BTreeMap.insert BTreeMap.contains_key BTreeMap.place ayatori.Prelude.ℕ_discrete
    new_message BTreeMap.get_or BTreeMap.get ayatori.Execution.Send.into_update
broadcast_split = refl

into_dms-from_send_bc_action_example :
    (update ≡ sent_bc (name_of "sent echo"))
    × ((j : ℕ) → contains broadcast.destinations j ≡ false → BTreeMap.get dms j ≡ none)
    × ((j : ℕ)
        → contains broadcast.destinations j ≡ true
        → (v : SignedValue params) × (m : Message params) × (get_scalar stored
              (ScalarTag.local_signed (name_of "echo"))
            ≡ ok (signed_value v))
          × (new_message (v ∷ []) ≡ ok m)
          × (BTreeMap.get dms j ≡ some m))
into_dms-from_send_bc_action_example =
    into_dms-from_send_bc_action stored broadcast broadcast_task update dms distinct broadcast_made
      broadcast_split

-- The number that a value of the protocol is, as its one byte.
serialize_user : Value params → Result RuntimeError Bytes
serialize_user (user_value n) = ok (n ∷ [])
serialize_user _ = err wrong_type

deserialize_user : Bytes → Result String (Value params)
deserialize_user (n ∷ []) = ok (user_value n)
deserialize_user _ = err "expected one byte"

abbrev adapter : SerdeAdapter params
adapter = record { serialize = serialize_user; deserialize = deserialize_user }

adapter-RoundTrips : RoundTrips adapter
unfolding serialize_user deserialize_user
adapter-RoundTrips (user_value n) bytes h = rw (sym (ok_injective h)) refl
adapter-RoundTrips _ bytes h = absurd (ground arith)

abbrev args : SerializeArgs params
args = record {
  signer = 1;
  session_id = session_id;
  message_name = name_of "echo";
  serde_adapter = adapter;
  value = user_value 5;
}

abbrev senders : BTreeSet ℕ
senders = 1 ∷ 2 ∷ []

abbrev nobody : Option ℕ
nobody = none

member : contains senders 1 ≡ true
unfolding contains ayatori.Prelude.ℕ_discrete
member = refl

signed :
    (default_serialize_and_sign 0 nobody args).0 ≡ ok (signed_value (signed_by 1 "echo" (5 ∷ [])))
unfolding default_serialize_and_sign serialize_user ayatori.Entities.Message.new_signed
    ayatori.Entities.Message.update_with_value_and_metadata
    ayatori.Entities.Message.update_with_hash_and_metadata
signed = refl

default_deserialize-serialize_and_sign_example :
    (verify (signed_by 1 "echo" (5 ∷ [])) (9 ∷ [])
      ≡ ok (stamp (signed_by 1 "echo" (5 ∷ [])) (9 ∷ [])))
    × (default_deserialize
          (received_args args senders (signed_by 1 "echo" (5 ∷ [])) (9 ∷ []))
          (is_some nobody)
        ≡ ok (user_value 5))
default_deserialize-serialize_and_sign_example =
    default_deserialize-serialize_and_sign 0 nobody args senders (9 ∷ [])
      (signed_by 1 "echo" (5 ∷ [])) params-SignaturesAreAccepted adapter-RoundTrips member signed
