-- ===== src/Entities/Function.antt =====
-- ayatori/src/entities/function.rs: the functions of a protocol's nodes; a function is its closure,
-- the name that it is printed by left out. Also, from
-- ayatori/src/graph_representation/constructors.rs, the two functions that the nodes of messages
-- are given. A function that draws random bytes returns the generator's next state.
pub mod RoundTrip
pub mod Simple
use ayatori.Prelude.{Bool, true, false, ◌&&◌, not, Option, none, some, if◌then◌else◌, String}
use ayatori.Collections.Order.{Ord}
use ayatori.Collections.BTreeSet.{contains}
use ayatori.Entities.Errors.{
  Result, ok, err, RuntimeError, SenderError, UnattributableError, MaybeAttributableError, runtime,
  attributable,
}
use ayatori.Entities.Params.{Bytes, SessionParameters}
use ayatori.Entities.Message.{SignedValue, VerifiedValue, new_signed}
use ayatori.Entities.Value.{
  Value, signed_value, Args, SerializeArgs, DeserializeArgs, downcast_verified,
}

-- Data attached to evidence, in serialized form.
abbrev pub AssociatedData : Type 0
AssociatedData = Bytes

pub record SenderErrorWithReveal : Type 0 where
  pub description : String
  pub associated_data : AssociatedData

pub record ThirdPartyError (P : SessionParameters) : Type 0 where
  pub guilty_party : P.Verifier
  pub description : String
  pub associated_data : AssociatedData

pub record StoredThirdPartyError : Type 0 where
  pub description : String
  pub associated_data : AssociatedData

unfoldable pub unpack :
    {P : SessionParameters} → ThirdPartyError P → P.Verifier × StoredThirdPartyError
unpack e =
    (e.guilty_party, record { description = e.description; associated_data = e.associated_data })

module _ (P : SessionParameters) where
  abbrev pub UnattributableScalarFunction : Type 0
  UnattributableScalarFunction = Args P → Result UnattributableError (Value P)

  abbrev pub UnattributableOptionalScalarFunction : Type 0
  UnattributableOptionalScalarFunction = Args P → Result RuntimeError (Option (Value P))

  abbrev pub UnattributableScalarFunctionWithRng : Type 0
  UnattributableScalarFunctionWithRng =
      P.Rng → Args P → Result UnattributableError (Value P) × P.Rng

  abbrev pub ThirdPartyAttributableScalarFunction : Type 0
  ThirdPartyAttributableScalarFunction =
      Args P → Result (MaybeAttributableError (ThirdPartyError P)) (Value P)

  abbrev pub UnattributableMappingFunction : Type 0
  UnattributableMappingFunction = P.Verifier → Args P → Result UnattributableError (Value P)

  abbrev pub UnattributableMappingFunctionWithRng : Type 0
  UnattributableMappingFunctionWithRng =
      P.Rng → P.Verifier → Args P → Result UnattributableError (Value P) × P.Rng

  abbrev pub SenderAttributableMappingFunction : Type 0
  SenderAttributableMappingFunction =
      P.Verifier → Args P → Result (MaybeAttributableError SenderError) (Value P)

  abbrev pub SenderAttributableWithRevealMappingFunction : Type 0
  SenderAttributableWithRevealMappingFunction =
      P.Verifier → Args P → Result (MaybeAttributableError SenderErrorWithReveal) (Value P)

  abbrev pub ThirdPartyAttributableMappingFunction : Type 0
  ThirdPartyAttributableMappingFunction =
      P.Verifier → Args P → Result (MaybeAttributableError (ThirdPartyError P)) (Value P)

  abbrev pub SerializeAndSignBcFunction : Type 0
  SerializeAndSignBcFunction = P.Rng → SerializeArgs P → Result RuntimeError (Value P) × P.Rng

  abbrev pub SerializeAndSignDmFunction : Type 0
  SerializeAndSignDmFunction =
      P.Rng → P.Verifier → SerializeArgs P → Result RuntimeError (Value P) × P.Rng

  abbrev pub DeserializeFunction : Type 0
  DeserializeFunction = DeserializeArgs P → Result (MaybeAttributableError SenderError) (Value P)

pub data ScalarFunction (P : SessionParameters) : Type 0 where
  unattributable : UnattributableScalarFunction P → ScalarFunction P
  unattributable_optional : UnattributableOptionalScalarFunction P → ScalarFunction P
  unattributable_with_rng : UnattributableScalarFunctionWithRng P → ScalarFunction P
  third_party_attributable : ThirdPartyAttributableScalarFunction P → ScalarFunction P

pub data MappingFunction (P : SessionParameters) : Type 0 where
  unattributable : UnattributableMappingFunction P → MappingFunction P
  unattributable_with_rng : UnattributableMappingFunctionWithRng P → MappingFunction P
  sender_attributable : SenderAttributableMappingFunction P → MappingFunction P
  sender_attributable_with_reveal :
      SenderAttributableWithRevealMappingFunction P → MappingFunction P
  third_party_attributable : ThirdPartyAttributableMappingFunction P → MappingFunction P

pub is_some : {A : Type 0} → Option A → Bool
is_some none = false
is_some (some d) = true

module _ {P : SessionParameters} where
  unfoldable pub signed_result :
      Result RuntimeError (SignedValue P) × P.Rng → Result RuntimeError (Value P) × P.Rng
  signed_result (ok s, rng) = (ok (signed_value s), rng)
  signed_result (err e, rng) = (err e, rng)

  -- The generator is left alone where the value cannot be serialized.
  unfoldable pub default_serialize_and_sign :
      P.Rng → Option P.Verifier → SerializeArgs P → Result RuntimeError (Value P) × P.Rng
  unfolding signed_result
  default_serialize_and_sign rng destination args = elim (args.serde_adapter.serialize args.value) [
    | err e ↦ (err e, rng)
    | ok serialized ↦
        signed_result
          (new_signed P rng args.signer args.session_id args.message_name destination serialized)
  ]

  deserialize_verified :
      ⦃o : Ord P.Verifier⦄
      → DeserializeArgs P
      → Bool
      → VerifiedValue P
      → Result (MaybeAttributableError SenderError) (Value P)
  unfolding is_some
  deserialize_verified args expect_some_destination v =
      if expect_some_destination && not (is_some v.metadata.destination)
      then err (attributable "Expected a direct message, but got a broadcast message")
      else if not expect_some_destination && is_some v.metadata.destination
      then err (attributable "Expected a broadcast message, but got a direct message")
      else if not (contains args.expected_senders v.source)
      then err (attributable "Expected senders do not include the source")
      else elim (args.serde_adapter.deserialize v.value) [
        | ok value ↦ ok value
        | err e ↦ err (attributable e)
      ]

  pub default_deserialize :
      ⦃o : Ord P.Verifier⦄
      → DeserializeArgs P
      → Bool
      → Result (MaybeAttributableError SenderError) (Value P)
  unfolding deserialize_verified
  default_deserialize args expect_some_destination = elim (downcast_verified args.value) [
    | err e ↦ err (runtime e)
    | ok v ↦ deserialize_verified args expect_some_destination v
  ]
