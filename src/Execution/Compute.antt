-- ===== src/Execution/Compute.antt =====
-- ayatori/src/execution/task.rs: the tasks that call a function of the protocol. A task is the
-- fields of its `struct` in the arguments of its `execute`; what `execute` does with the outcome of
-- the call is shared here by the tasks that treat it alike.
pub mod Internal
use ayatori.Prelude.{Option, none, some}
use ayatori.Entities.Tags.{FullName, ScalarTag, MappingTag, scalar, mapping}
use ayatori.Entities.Errors.{
  Result, ok, err, RuntimeError, SenderError, UnattributableError, MaybeAttributableError,
}
use ayatori.Entities.Params.{SessionParameters}
use ayatori.Entities.Value.{Value, Args, SerializeArgs, DeserializeArgs}
use ayatori.Entities.Function.{
  UnattributableScalarFunction, UnattributableOptionalScalarFunction,
  UnattributableScalarFunctionWithRng, ThirdPartyAttributableScalarFunction,
  UnattributableMappingFunction, UnattributableMappingFunctionWithRng,
  SenderAttributableMappingFunction, SenderAttributableWithRevealMappingFunction,
  ThirdPartyAttributableMappingFunction, SerializeAndSignBcFunction, SerializeAndSignDmFunction,
  DeserializeFunction, SenderErrorWithReveal, ThirdPartyError,
}
use ayatori.Flat.Actions.{OnError}
use ayatori.Execution.Update.{
  SessionUpdate, no_action_needed, computed_scalar, computed_mapping_element, runtime_error,
  spurious_error, sender_error, sender_error_with_reveal, third_party_error,
}

module _ {P : SessionParameters} where
  scalar_or_spurious : ScalarTag → Result UnattributableError (Value P) → SessionUpdate P
  scalar_or_spurious store_in (ok result) = computed_scalar store_in result
  scalar_or_spurious store_in (err (UnattributableError.runtime e)) = runtime_error e
  scalar_or_spurious store_in (err (UnattributableError.spurious e)) =
      spurious_error (scalar store_in) e

  element_or_spurious :
      MappingTag → P.Verifier → Result UnattributableError (Value P) → SessionUpdate P
  element_or_spurious store_in index (ok result) = computed_mapping_element store_in index result
  element_or_spurious store_in index (err (UnattributableError.runtime e)) = runtime_error e
  element_or_spurious store_in index (err (UnattributableError.spurious e)) =
      spurious_error (mapping store_in) e

  element_or_sender :
      MappingTag
      → P.Verifier
      → OnError
      → Result (MaybeAttributableError SenderError) (Value P)
      → SessionUpdate P
  element_or_sender store_in index on_error (ok result) =
      computed_mapping_element store_in index result
  element_or_sender store_in index on_error (err (MaybeAttributableError.runtime e)) =
      runtime_error e
  element_or_sender store_in index on_error (err (MaybeAttributableError.attributable e)) =
      sender_error store_in index e on_error

  element_or_reveal :
      MappingTag
      → P.Verifier
      → OnError
      → Result (MaybeAttributableError SenderErrorWithReveal) (Value P)
      → SessionUpdate P
  element_or_reveal store_in index on_error (ok result) =
      computed_mapping_element store_in index result
  element_or_reveal store_in index on_error (err (MaybeAttributableError.runtime e)) =
      runtime_error e
  element_or_reveal store_in index on_error (err (MaybeAttributableError.attributable e)) =
      sender_error_with_reveal store_in index e on_error

  scalar_or_third_party :
      ScalarTag → Result (MaybeAttributableError (ThirdPartyError P)) (Value P) → SessionUpdate P
  scalar_or_third_party store_in (ok result) = computed_scalar store_in result
  scalar_or_third_party store_in (err (MaybeAttributableError.runtime e)) = runtime_error e
  scalar_or_third_party store_in (err (MaybeAttributableError.attributable e)) =
      third_party_error (scalar store_in) e

  element_or_third_party :
      MappingTag
      → P.Verifier
      → Result (MaybeAttributableError (ThirdPartyError P)) (Value P)
      → SessionUpdate P
  element_or_third_party store_in index (ok result) = computed_mapping_element store_in index result
  element_or_third_party store_in index (err (MaybeAttributableError.runtime e)) = runtime_error e
  element_or_third_party store_in index (err (MaybeAttributableError.attributable e)) =
      third_party_error (mapping store_in) e

  scalar_if_some : ScalarTag → Result RuntimeError (Option (Value P)) → SessionUpdate P
  scalar_if_some store_in (ok none) = no_action_needed
  scalar_if_some store_in (ok (some value)) = computed_scalar store_in value
  scalar_if_some store_in (err e) = runtime_error e

  scalar_or_runtime : ScalarTag → Result RuntimeError (Value P) → SessionUpdate P
  scalar_or_runtime store_in (ok result) = computed_scalar store_in result
  scalar_or_runtime store_in (err e) = runtime_error e

  element_or_runtime : MappingTag → P.Verifier → Result RuntimeError (Value P) → SessionUpdate P
  element_or_runtime store_in index (ok result) = computed_mapping_element store_in index result
  element_or_runtime store_in index (err e) = runtime_error e

  pub execute_scalar_unattributable :
      FullName → UnattributableScalarFunction P → Args P → SessionUpdate P
  unfolding scalar_or_spurious
  execute_scalar_unattributable store_in function args =
      scalar_or_spurious (ScalarTag.computed store_in) (function args)

  pub execute_scalar_unattributable_optional :
      FullName → UnattributableOptionalScalarFunction P → Args P → SessionUpdate P
  unfolding scalar_if_some
  execute_scalar_unattributable_optional store_in function args =
      scalar_if_some (ScalarTag.computed store_in) (function args)

  pub execute_scalar_third_party_attributable :
      FullName → ThirdPartyAttributableScalarFunction P → Args P → SessionUpdate P
  unfolding scalar_or_third_party
  execute_scalar_third_party_attributable store_in function args =
      scalar_or_third_party (ScalarTag.computed store_in) (function args)

  pub execute_element_unattributable :
      FullName → UnattributableMappingFunction P → P.Verifier → Args P → SessionUpdate P
  unfolding element_or_spurious
  execute_element_unattributable store_in function index args =
      element_or_spurious (MappingTag.computed store_in) index (function index args)

  pub execute_element_sender_attributable :
      FullName
      → SenderAttributableMappingFunction P
      → P.Verifier
      → Args P
      → OnError
      → SessionUpdate P
  unfolding element_or_sender
  execute_element_sender_attributable store_in function index args on_error =
      element_or_sender (MappingTag.computed store_in) index on_error (function index args)

  pub execute_element_sender_attributable_with_reveal :
      FullName
      → SenderAttributableWithRevealMappingFunction P
      → P.Verifier
      → Args P
      → OnError
      → SessionUpdate P
  unfolding element_or_reveal
  execute_element_sender_attributable_with_reveal store_in function index args on_error =
      element_or_reveal (MappingTag.computed store_in) index on_error (function index args)

  pub execute_element_third_party_attributable :
      FullName → ThirdPartyAttributableMappingFunction P → P.Verifier → Args P → SessionUpdate P
  unfolding element_or_third_party
  execute_element_third_party_attributable store_in function index args =
      element_or_third_party (MappingTag.computed store_in) index (function index args)

  pub execute_deserialize_element :
      FullName → DeserializeFunction P → P.Verifier → DeserializeArgs P → OnError → SessionUpdate P
  unfolding element_or_sender
  execute_deserialize_element store_in function index args on_error =
      element_or_sender (MappingTag.received store_in) index on_error (function args)

  pub execute_rng_scalar_unattributable :
      FullName → UnattributableScalarFunctionWithRng P → Args P → P.Rng → SessionUpdate P × P.Rng
  unfolding scalar_or_spurious
  execute_rng_scalar_unattributable store_in function args rng =
      let (result, rng') = function rng args in
      (scalar_or_spurious (ScalarTag.computed store_in) result, rng')

  pub execute_rng_element_unattributable :
      FullName
      → UnattributableMappingFunctionWithRng P
      → P.Verifier
      → Args P
      → P.Rng
      → SessionUpdate P × P.Rng
  unfolding element_or_spurious
  execute_rng_element_unattributable store_in function index args rng =
      let (result, rng') = function rng index args in
      (element_or_spurious (MappingTag.computed store_in) index result, rng')

  pub execute_serialize_and_sign_scalar :
      FullName → SerializeAndSignBcFunction P → SerializeArgs P → P.Rng → SessionUpdate P × P.Rng
  unfolding scalar_or_runtime
  execute_serialize_and_sign_scalar store_in function args rng =
      let (result, rng') = function rng args in
      (scalar_or_runtime (ScalarTag.local_signed store_in) result, rng')

  pub execute_serialize_and_sign_element :
      FullName
      → SerializeAndSignDmFunction P
      → P.Verifier
      → SerializeArgs P
      → P.Rng
      → SessionUpdate P × P.Rng
  unfolding element_or_runtime
  execute_serialize_and_sign_element store_in function index args rng =
      let (result, rng') = function rng index args in
      (element_or_runtime (MappingTag.local_signed store_in) index result, rng')
