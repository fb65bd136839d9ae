-- ===== src/Execution/Task.antt =====
-- ayatori/src/execution/task.rs: the tasks of a session, made from the actions of its ruleset and the
-- values in its storage. `DeterministicTask` and `RandomizedTask` wrap their `enum`s.
pub mod Internal
use ayatori.Collections.Order.{Ord}
use ayatori.Entities.Tags.{FullName, ScalarTag, MappingTag}
use ayatori.Entities.Errors.{Result, ok, ◌>>=◌, RuntimeError}
use ayatori.Entities.Params.{SessionId, SessionParameters}
use ayatori.Entities.Value.{Value, Args, SerializeArgs, DeserializeArgs}
use ayatori.Entities.Function.{
  UnattributableScalarFunction, UnattributableOptionalScalarFunction,
  UnattributableScalarFunctionWithRng, ThirdPartyAttributableScalarFunction,
  UnattributableMappingFunction, UnattributableMappingFunctionWithRng,
  SenderAttributableMappingFunction, SenderAttributableWithRevealMappingFunction,
  ThirdPartyAttributableMappingFunction, SerializeAndSignBcFunction, SerializeAndSignDmFunction,
  DeserializeFunction, ScalarFunction, MappingFunction,
}
use ayatori.Flat.Actions.{
  OnError, ComputeScalarAction, ComputeMappingElementAction, ComputeSerializeAndSignScalarAction,
  ComputeSerializeAndSignElementAction, ComputeDeserializeElementAction, SendBcAction, SendDmAction,
  CollectAction, MergeScalarsAction,
}
use ayatori.Execution.Storage.{
  Storage, get_scalar, get_elem, get_scalar_args, get_scalar_or_mapping, get_scalar_or_mapping_args,
  get_one_or_both_as_value, get_mapping_as_value,
}
use ayatori.Execution.Update.{SessionUpdate, merged_scalars, collected}
use ayatori.Execution.Compute.{
  execute_scalar_unattributable, execute_scalar_unattributable_optional,
  execute_scalar_third_party_attributable, execute_element_unattributable,
  execute_element_sender_attributable, execute_element_sender_attributable_with_reveal,
  execute_element_third_party_attributable, execute_deserialize_element,
  execute_rng_scalar_unattributable, execute_rng_element_unattributable,
  execute_serialize_and_sign_scalar, execute_serialize_and_sign_element,
}
use ayatori.Execution.Preprocess
use ayatori.Execution.Preprocess.{PreprocessMessageTask}
use ayatori.Execution.Send
use ayatori.Execution.Send.{SendTask}

pub data DeterministicTask (P : SessionParameters) : Type 0 where
  scalar_unattributable : FullName → UnattributableScalarFunction P → Args P → DeterministicTask P
  scalar_unattributable_optional :
      FullName → UnattributableOptionalScalarFunction P → Args P → DeterministicTask P
  scalar_third_party_attributable :
      FullName → ThirdPartyAttributableScalarFunction P → Args P → DeterministicTask P
  element_unattributable :
      FullName → UnattributableMappingFunction P → P.Verifier → Args P → DeterministicTask P
  element_sender_attributable :
      FullName
      → SenderAttributableMappingFunction P
      → P.Verifier
      → Args P
      → OnError
      → DeterministicTask P
  element_sender_attributable_with_reveal :
      FullName
      → SenderAttributableWithRevealMappingFunction P
      → P.Verifier
      → Args P
      → OnError
      → DeterministicTask P
  element_third_party_attributable :
      FullName → ThirdPartyAttributableMappingFunction P → P.Verifier → Args P → DeterministicTask P
  deserialize_element :
      FullName
      → DeserializeFunction P
      → P.Verifier
      → DeserializeArgs P
      → OnError
      → DeterministicTask P
  preprocess_message : PreprocessMessageTask P → DeterministicTask P
  merge_scalars : FullName → Value P → DeterministicTask P
  collect : ScalarTag → Value P → DeterministicTask P

pub data RandomizedTask (P : SessionParameters) : Type 0 where
  scalar_unattributable :
      FullName → UnattributableScalarFunctionWithRng P → Args P → RandomizedTask P
  element_unattributable :
      FullName → UnattributableMappingFunctionWithRng P → P.Verifier → Args P → RandomizedTask P
  serialize_and_sign_scalar :
      FullName → SerializeAndSignBcFunction P → SerializeArgs P → RandomizedTask P
  serialize_and_sign_element :
      FullName → SerializeAndSignDmFunction P → P.Verifier → SerializeArgs P → RandomizedTask P

pub data Task (P : SessionParameters) : Type 0 where
  send : SendTask P → Task P
  deterministic : DeterministicTask P → Task P
  randomized : RandomizedTask P → Task P

module _ {P : SessionParameters} where
  unfoldable pub execute : ⦃o : Ord P.Verifier⦄ → DeterministicTask P → SessionUpdate P
  execute (DeterministicTask.scalar_unattributable store_in function args) =
      execute_scalar_unattributable store_in function args
  execute (DeterministicTask.scalar_unattributable_optional store_in function args) =
      execute_scalar_unattributable_optional store_in function args
  execute (DeterministicTask.scalar_third_party_attributable store_in function args) =
      execute_scalar_third_party_attributable store_in function args
  execute (DeterministicTask.element_unattributable store_in function index args) =
      execute_element_unattributable store_in function index args
  execute (DeterministicTask.element_sender_attributable store_in function index args on_error) =
      execute_element_sender_attributable store_in function index args on_error
  execute
        (DeterministicTask.element_sender_attributable_with_reveal store_in function index args
          on_error) =
      execute_element_sender_attributable_with_reveal store_in function index args on_error
  execute (DeterministicTask.element_third_party_attributable store_in function index args) =
      execute_element_third_party_attributable store_in function index args
  execute (DeterministicTask.deserialize_element store_in function index args on_error) =
      execute_deserialize_element store_in function index args on_error
  execute (DeterministicTask.preprocess_message task) = Preprocess.execute task
  execute (DeterministicTask.merge_scalars store_in result) = merged_scalars store_in result
  execute (DeterministicTask.collect store_in result) = collected store_in result

  pub execute_randomized : RandomizedTask P → P.Rng → SessionUpdate P × P.Rng
  execute_randomized (RandomizedTask.scalar_unattributable store_in function args) rng =
      execute_rng_scalar_unattributable store_in function args rng
  execute_randomized (RandomizedTask.element_unattributable store_in function index args) rng =
      execute_rng_element_unattributable store_in function index args rng
  execute_randomized (RandomizedTask.serialize_and_sign_scalar store_in function args) rng =
      execute_serialize_and_sign_scalar store_in function args rng
  execute_randomized (RandomizedTask.serialize_and_sign_element store_in function index args) rng =
      execute_serialize_and_sign_element store_in function index args rng

  scalar_task : FullName → Args P → ScalarFunction P → Task P
  scalar_task store_in args (ScalarFunction.unattributable function) =
      deterministic (DeterministicTask.scalar_unattributable store_in function args)
  scalar_task store_in args (ScalarFunction.unattributable_optional function) =
      deterministic (DeterministicTask.scalar_unattributable_optional store_in function args)
  scalar_task store_in args (ScalarFunction.unattributable_with_rng function) =
      randomized (RandomizedTask.scalar_unattributable store_in function args)
  scalar_task store_in args (ScalarFunction.third_party_attributable function) =
      deterministic (DeterministicTask.scalar_third_party_attributable store_in function args)

  pub from_compute_scalar_action :
      SessionId → P.Verifier → Storage P → ComputeScalarAction P → Result RuntimeError (Task P)
  unfolding scalar_task
  from_compute_scalar_action session_id session_verifier storage action = do
    arg_values ← get_scalar_args storage action.args
    ok (
        scalar_task action.store_in
          (record { session_id = session_id; my_id = session_verifier; values = arg_values })
          action.function)

  mapping_task : FullName → P.Verifier → Args P → OnError → MappingFunction P → Task P
  mapping_task store_in index args on_error (MappingFunction.unattributable function) =
      deterministic (DeterministicTask.element_unattributable store_in function index args)
  mapping_task store_in index args on_error (MappingFunction.unattributable_with_rng function) =
      randomized (RandomizedTask.element_unattributable store_in function index args)
  mapping_task store_in index args on_error (MappingFunction.sender_attributable function) =
      deterministic
        (DeterministicTask.element_sender_attributable store_in function index args on_error)
  mapping_task store_in index args on_error
        (MappingFunction.sender_attributable_with_reveal function) =
      deterministic (
        DeterministicTask.element_sender_attributable_with_reveal store_in function index args
          on_error)
  mapping_task store_in index args on_error (MappingFunction.third_party_attributable function) =
      deterministic
        (DeterministicTask.element_third_party_attributable store_in function index args)

  pub from_compute_mapping_element_action :
      ⦃o : Ord P.Verifier⦄
      → SessionId
      → P.Verifier
      → Storage P
      → ComputeMappingElementAction P
      → Result RuntimeError (Task P)
  unfolding mapping_task
  from_compute_mapping_element_action session_id session_verifier storage action = do
    arg_values ← get_scalar_or_mapping_args storage action.index action.args
    ok (
        mapping_task action.store_in action.index
          (record { session_id = session_id; my_id = session_verifier; values = arg_values })
          action.on_error action.function)

  pub from_compute_serialize_and_sign_scalar_action :
      P.Signer
      → SessionId
      → Storage P
      → ComputeSerializeAndSignScalarAction P
      → Result RuntimeError (Task P)
  from_compute_serialize_and_sign_scalar_action signer session_id storage action = do
    value ← get_scalar storage action.signs
    ok (
        randomized (
          RandomizedTask.serialize_and_sign_scalar action.store_in action.function (record {
            signer = signer;
            session_id = session_id;
            message_name = action.message_name;
            serde_adapter = action.serde_adapter;
            value = value;
          })))

  pub from_compute_serialize_and_sign_element_action :
      ⦃o : Ord P.Verifier⦄
      → P.Signer
      → SessionId
      → Storage P
      → ComputeSerializeAndSignElementAction P
      → Result RuntimeError (Task P)
  from_compute_serialize_and_sign_element_action signer session_id storage action = do
    value ← get_scalar_or_mapping storage action.index action.signs
    ok (
        randomized (
          RandomizedTask.serialize_and_sign_element action.store_in action.function action.index
            (record {
              signer = signer;
              session_id = session_id;
              message_name = action.message_name;
              serde_adapter = action.serde_adapter;
              value = value;
            })))

  pub from_compute_deserialize_element_action :
      ⦃o : Ord P.Verifier⦄
      → Storage P
      → ComputeDeserializeElementAction P
      → Result RuntimeError (Task P)
  from_compute_deserialize_element_action storage action = do
    value ← get_elem storage (MappingTag.remote_signed action.reads) action.index
    ok (
        deterministic (
          DeterministicTask.deserialize_element action.store_in action.function action.index
            (record {
              serde_adapter = action.serde_adapter;
              value = value;
              expected_senders = action.expected_senders;
            })
            action.on_error))

  pub from_send_bc_action : Storage P → SendBcAction P → Result RuntimeError (Task P)
  from_send_bc_action storage action = do
    task ← Send.from_send_bc_action storage action
    ok (send task)

  pub from_send_dm_action :
      ⦃o : Ord P.Verifier⦄ → Storage P → SendDmAction P → Result RuntimeError (Task P)
  from_send_dm_action storage action = do
    task ← Send.from_send_dm_action storage action
    ok (send task)

  pub from_merge_scalars_action : Storage P → MergeScalarsAction → Result RuntimeError (Task P)
  from_merge_scalars_action storage action = do
    result ← get_one_or_both_as_value storage action.left action.right
    ok (deterministic (DeterministicTask.merge_scalars action.store_in result))

  pub from_collect_action :
      ⦃o : Ord P.Verifier⦄ → Storage P → CollectAction P → Result RuntimeError (Task P)
  from_collect_action storage action = do
    result ← get_mapping_as_value storage action.values action.sources
    ok (deterministic (DeterministicTask.collect action.store_in result))
