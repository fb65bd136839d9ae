-- ===== src/Execution/Compute/Internal.antt =====
-- The updates that the tasks of ayatori/src/execution/task.rs give when they call a function of the
-- protocol: none of them brings a message into the session.
use ayatori.Prelude.{◌≡◌, refl, Bool, true, false, Option, none, some}
use ayatori.Entities.Tags.{FullName, ScalarTag, MappingTag}
use ayatori.Entities.Errors.{
  Result, ok, err, RuntimeError, SenderError, UnattributableError, MaybeAttributableError,
}
use ayatori.Entities.Params.{SessionParameters}
use ayatori.Entities.Value.{Value, Args, SerializeArgs, DeserializeArgs}
use ayatori.Entities.Function.{
  UnattributableScalarFunction, UnattributableOptionalScalarFunction,
  UnattributableScalarFunctionWithRng, ThirdPartyAttributableScalarFunction,
  UnattributableMappingFunction, UnattributableMappingFunctionWithRng,
  SenderAttributableMappingFunction, SenderAttributableWithRevealMappingFunction,
  ThirdPartyAttributableMappingFunction, SerializeAndSignBcFunction, SerializeAndSignDmFunction,
  DeserializeFunction, SenderErrorWithReveal, ThirdPartyError,
}
use ayatori.Flat.Actions.{OnError}
use ayatori.Execution.Update.{SessionUpdate, received, preprocessed, computed_mapping_element}
use ayatori.Execution.Compute.{
  scalar_or_spurious, element_or_spurious, element_or_sender, element_or_reveal,
  scalar_or_third_party, element_or_third_party, scalar_if_some, scalar_or_runtime,
  element_or_runtime, execute_scalar_unattributable, execute_scalar_unattributable_optional,
  execute_scalar_third_party_attributable, execute_element_unattributable,
  execute_element_sender_attributable, execute_element_sender_attributable_with_reveal,
  execute_element_third_party_attributable, execute_deserialize_element,
  execute_rng_scalar_unattributable, execute_rng_element_unattributable,
  execute_serialize_and_sign_scalar, execute_serialize_and_sign_element,
}

-- Whether a tag is another one than that of a received message.
unfoldable pub is_own : MappingTag → Bool
is_own (MappingTag.remote_signed name) = false
is_own _ = true

module _ {P : SessionParameters} where
  -- Whether an update brings no message into the session, neither one to check nor one to store.
  unfoldable pub internal : SessionUpdate P → Bool
  unfolding is_own
  internal (received id message) = false
  internal (preprocessed store_in source value) = false
  internal (computed_mapping_element store_in index result) = is_own store_in
  internal _ = true

  scalar_or_spurious-internal :
      (t : ScalarTag) (r : Result UnattributableError (Value P))
      → internal (scalar_or_spurious t r) ≡ true
  unfolding scalar_or_spurious internal
  scalar_or_spurious-internal t (ok v) = refl
  scalar_or_spurious-internal t (err (UnattributableError.runtime e)) = refl
  scalar_or_spurious-internal t (err (UnattributableError.spurious e)) = refl

  element_or_spurious-internal :
      (t : MappingTag) (i : P.Verifier) (r : Result UnattributableError (Value P))
      → is_own t ≡ true
      → internal (element_or_spurious t i r) ≡ true
  unfolding element_or_spurious internal
  element_or_spurious-internal t i (ok v) h = h
  element_or_spurious-internal t i (err (UnattributableError.runtime e)) h = refl
  element_or_spurious-internal t i (err (UnattributableError.spurious e)) h = refl

  element_or_sender-internal :
      (t : MappingTag) (i : P.Verifier) (on_error : OnError)
      (r : Result (MaybeAttributableError SenderError) (Value P))
      → is_own t ≡ true
      → internal (element_or_sender t i on_error r) ≡ true
  unfolding element_or_sender internal
  element_or_sender-internal t i on_error (ok v) h = h
  element_or_sender-internal t i on_error (err (MaybeAttributableError.runtime e)) h = refl
  element_or_sender-internal t i on_error (err (MaybeAttributableError.attributable e)) h = refl

  element_or_reveal-internal :
      (t : MappingTag) (i : P.Verifier) (on_error : OnError)
      (r : Result (MaybeAttributableError SenderErrorWithReveal) (Value P))
      → is_own t ≡ true
      → internal (element_or_reveal t i on_error r) ≡ true
  unfolding element_or_reveal internal
  element_or_reveal-internal t i on_error (ok v) h = h
  element_or_reveal-internal t i on_error (err (MaybeAttributableError.runtime e)) h = refl
  element_or_reveal-internal t i on_error (err (MaybeAttributableError.attributable e)) h = refl

  scalar_or_third_party-internal :
      (t : ScalarTag) (r : Result (MaybeAttributableError (ThirdPartyError P)) (Value P))
      → internal (scalar_or_third_party t r) ≡ true
  unfolding scalar_or_third_party internal
  scalar_or_third_party-internal t (ok v) = refl
  scalar_or_third_party-internal t (err (MaybeAttributableError.runtime e)) = refl
  scalar_or_third_party-internal t (err (MaybeAttributableError.attributable e)) = refl

  element_or_third_party-internal :
      (t : MappingTag) (i : P.Verifier)
      (r : Result (MaybeAttributableError (ThirdPartyError P)) (Value P))
      → is_own t ≡ true
      → internal (element_or_third_party t i r) ≡ true
  unfolding element_or_third_party internal
  element_or_third_party-internal t i (ok v) h = h
  element_or_third_party-internal t i (err (MaybeAttributableError.runtime e)) h = refl
  element_or_third_party-internal t i (err (MaybeAttributableError.attributable e)) h = refl

  scalar_if_some-internal :
      (t : ScalarTag) (r : Result RuntimeError (Option (Value P)))
      → internal (scalar_if_some t r) ≡ true
  unfolding scalar_if_some internal
  scalar_if_some-internal t (ok none) = refl
  scalar_if_some-internal t (ok (some v)) = refl
  scalar_if_some-internal t (err e) = refl

  scalar_or_runtime-internal :
      (t : ScalarTag) (r : Result RuntimeError (Value P)) → internal (scalar_or_runtime t r) ≡ true
  unfolding scalar_or_runtime internal
  scalar_or_runtime-internal t (ok v) = refl
  scalar_or_runtime-internal t (err e) = refl

  element_or_runtime-internal :
      (t : MappingTag) (i : P.Verifier) (r : Result RuntimeError (Value P))
      → is_own t ≡ true
      → internal (element_or_runtime t i r) ≡ true
  unfolding element_or_runtime internal
  element_or_runtime-internal t i (ok v) h = h
  element_or_runtime-internal t i (err e) h = refl

  pub execute_scalar_unattributable-internal :
      (n : FullName) (f : UnattributableScalarFunction P) (a : Args P)
      → internal (execute_scalar_unattributable n f a) ≡ true
  unfolding execute_scalar_unattributable is_own
  execute_scalar_unattributable-internal n f a =
      scalar_or_spurious-internal (ScalarTag.computed n) (f a)

  pub execute_scalar_unattributable_optional-internal :
      (n : FullName) (f : UnattributableOptionalScalarFunction P) (a : Args P)
      → internal (execute_scalar_unattributable_optional n f a) ≡ true
  unfolding execute_scalar_unattributable_optional is_own
  execute_scalar_unattributable_optional-internal n f a =
      scalar_if_some-internal (ScalarTag.computed n) (f a)

  pub execute_scalar_third_party_attributable-internal :
      (n : FullName) (f : ThirdPartyAttributableScalarFunction P) (a : Args P)
      → internal (execute_scalar_third_party_attributable n f a) ≡ true
  unfolding execute_scalar_third_party_attributable is_own
  execute_scalar_third_party_attributable-internal n f a =
      scalar_or_third_party-internal (ScalarTag.computed n) (f a)

  pub execute_element_unattributable-internal :
      (n : FullName) (f : UnattributableMappingFunction P) (i : P.Verifier) (a : Args P)
      → internal (execute_element_unattributable n f i a) ≡ true
  unfolding execute_element_unattributable is_own
  execute_element_unattributable-internal n f i a =
      element_or_spurious-internal (MappingTag.computed n) i (f i a) refl

  pub execute_element_sender_attributable-internal :
      (n : FullName) (f : SenderAttributableMappingFunction P) (i : P.Verifier) (a : Args P)
      (e : OnError)
      → internal (execute_element_sender_attributable n f i a e) ≡ true
  unfolding execute_element_sender_attributable is_own
  execute_element_sender_attributable-internal n f i a e =
      element_or_sender-internal (MappingTag.computed n) i e (f i a) refl

  pub execute_element_sender_attributable_with_reveal-internal :
      (n : FullName) (f : SenderAttributableWithRevealMappingFunction P) (i : P.Verifier)
      (a : Args P) (e : OnError)
      → internal (execute_element_sender_attributable_with_reveal n f i a e) ≡ true
  unfolding execute_element_sender_attributable_with_reveal is_own
  execute_element_sender_attributable_with_reveal-internal n f i a e =
      element_or_reveal-internal (MappingTag.computed n) i e (f i a) refl

  pub execute_element_third_party_attributable-internal :
      (n : FullName) (f : ThirdPartyAttributableMappingFunction P) (i : P.Verifier) (a : Args P)
      → internal (execute_element_third_party_attributable n f i a) ≡ true
  unfolding execute_element_third_party_attributable is_own
  execute_element_third_party_attributable-internal n f i a =
      element_or_third_party-internal (MappingTag.computed n) i (f i a) refl

  pub execute_deserialize_element-internal :
      (n : FullName) (f : DeserializeFunction P) (i : P.Verifier) (a : DeserializeArgs P)
      (e : OnError)
      → internal (execute_deserialize_element n f i a e) ≡ true
  unfolding execute_deserialize_element is_own
  execute_deserialize_element-internal n f i a e =
      element_or_sender-internal (MappingTag.received n) i e (f a) refl

  pub execute_rng_scalar_unattributable-internal :
      (n : FullName) (f : UnattributableScalarFunctionWithRng P) (a : Args P) (rng : P.Rng)
      → internal (execute_rng_scalar_unattributable n f a rng).0 ≡ true
  unfolding execute_rng_scalar_unattributable is_own
  execute_rng_scalar_unattributable-internal n f a rng =
      scalar_or_spurious-internal (ScalarTag.computed n) (f rng a).0

  pub execute_rng_element_unattributable-internal :
      (n : FullName) (f : UnattributableMappingFunctionWithRng P) (i : P.Verifier) (a : Args P)
      (rng : P.Rng)
      → internal (execute_rng_element_unattributable n f i a rng).0 ≡ true
  unfolding execute_rng_element_unattributable is_own
  execute_rng_element_unattributable-internal n f i a rng =
      element_or_spurious-internal (MappingTag.computed n) i (f rng i a).0 refl

  pub execute_serialize_and_sign_scalar-internal :
      (n : FullName) (f : SerializeAndSignBcFunction P) (a : SerializeArgs P) (rng : P.Rng)
      → internal (execute_serialize_and_sign_scalar n f a rng).0 ≡ true
  unfolding execute_serialize_and_sign_scalar is_own
  execute_serialize_and_sign_scalar-internal n f a rng =
      scalar_or_runtime-internal (ScalarTag.local_signed n) (f rng a).0

  pub execute_serialize_and_sign_element-internal :
      (n : FullName) (f : SerializeAndSignDmFunction P) (i : P.Verifier) (a : SerializeArgs P)
      (rng : P.Rng)
      → internal (execute_serialize_and_sign_element n f i a rng).0 ≡ true
  unfolding execute_serialize_and_sign_element is_own
  execute_serialize_and_sign_element-internal n f i a rng =
      element_or_runtime-internal (MappingTag.local_signed n) i (f rng i a).0 refl
