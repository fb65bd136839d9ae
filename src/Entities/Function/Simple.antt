-- ===== src/Entities/Function/Simple.antt =====
-- ayatori/src/entities/function.rs: the functions that a node needs no further information for, and
-- those that check evidence.
use ayatori.Prelude.{Bool, true, false}
use ayatori.Entities.Errors.{Result, RuntimeError}
use ayatori.Entities.Params.{SessionId, SessionParameters}
use ayatori.Entities.Value.{EvidenceVerdict, Args}
use ayatori.Entities.Function.{
  AssociatedData, UnattributableScalarFunction, UnattributableOptionalScalarFunction,
  UnattributableScalarFunctionWithRng, UnattributableMappingFunction,
  UnattributableMappingFunctionWithRng, SenderAttributableMappingFunction, ScalarFunction,
  MappingFunction,
}

module _ (P : SessionParameters) where
  abbrev pub ThirdPartyAttributableVerificationFunction : Type 0
  ThirdPartyAttributableVerificationFunction =
      P.Verifier → SessionId → AssociatedData → Result RuntimeError EvidenceVerdict

  abbrev pub SenderAttributableVerificationFunction : Type 0
  SenderAttributableVerificationFunction =
      P.Verifier → Args P → AssociatedData → Result RuntimeError EvidenceVerdict

pub data SimpleScalarFunction (P : SessionParameters) : Type 0 where
  unattributable : UnattributableScalarFunction P → SimpleScalarFunction P
  unattributable_optional : UnattributableOptionalScalarFunction P → SimpleScalarFunction P
  unattributable_with_rng : UnattributableScalarFunctionWithRng P → SimpleScalarFunction P

pub data SimpleMappingFunction (P : SessionParameters) : Type 0 where
  unattributable : UnattributableMappingFunction P → SimpleMappingFunction P
  unattributable_with_rng : UnattributableMappingFunctionWithRng P → SimpleMappingFunction P
  sender_attributable : SenderAttributableMappingFunction P → SimpleMappingFunction P

module _ {P : SessionParameters} where
  unfoldable pub scalar_is_deterministic : SimpleScalarFunction P → Bool
  scalar_is_deterministic (SimpleScalarFunction.unattributable f) = true
  scalar_is_deterministic (SimpleScalarFunction.unattributable_optional f) = true
  scalar_is_deterministic (SimpleScalarFunction.unattributable_with_rng f) = false

  unfoldable pub mapping_is_deterministic : SimpleMappingFunction P → Bool
  mapping_is_deterministic (SimpleMappingFunction.unattributable f) = true
  mapping_is_deterministic (SimpleMappingFunction.unattributable_with_rng f) = false
  mapping_is_deterministic (SimpleMappingFunction.sender_attributable f) = true

  unfoldable pub scalar_from_simple : SimpleScalarFunction P → ScalarFunction P
  scalar_from_simple (SimpleScalarFunction.unattributable f) = ScalarFunction.unattributable f
  scalar_from_simple (SimpleScalarFunction.unattributable_optional f) =
      ScalarFunction.unattributable_optional f
  scalar_from_simple (SimpleScalarFunction.unattributable_with_rng f) =
      ScalarFunction.unattributable_with_rng f

  unfoldable pub mapping_from_simple : SimpleMappingFunction P → MappingFunction P
  mapping_from_simple (SimpleMappingFunction.unattributable f) = MappingFunction.unattributable f
  mapping_from_simple (SimpleMappingFunction.unattributable_with_rng f) =
      MappingFunction.unattributable_with_rng f
  mapping_from_simple (SimpleMappingFunction.sender_attributable f) =
      MappingFunction.sender_attributable f
