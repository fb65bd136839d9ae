-- ===== src/Flat/Actions.antt =====
-- ayatori/src/flat_representation/actions.rs: what a rule that fires asks the session to do.
use ayatori.Prelude.{String}
use ayatori.Collections.BTreeSet.{BTreeSet}
use ayatori.Collections.BTreeMap.{BTreeMap}
use ayatori.Entities.Tags.{FullName, ScalarTag, MappingTag, AnyTag}
use ayatori.Entities.Params.{SessionParameters}
use ayatori.Entities.Value.{SerdeAdapter}
use ayatori.Entities.Function.{
  ScalarFunction, MappingFunction, SerializeAndSignBcFunction, SerializeAndSignDmFunction,
  DeserializeFunction,
}

-- ayatori/src/flat_representation/rules.rs: what to do with an attributable error.
pub data OnError : Type 0 where
  collect_evidence : BTreeSet FullName → OnError
  escalate : OnError

pub record ComputeScalarAction (P : SessionParameters) : Type 0 where
  pub store_in : FullName
  pub function : ScalarFunction P
  pub args : BTreeMap String ScalarTag

pub record ComputeMappingElementAction (P : SessionParameters) : Type 0 where
  pub store_in : FullName
  pub index : P.Verifier
  pub function : MappingFunction P
  pub args : BTreeMap String AnyTag
  pub on_error : OnError

pub record ComputeSerializeAndSignScalarAction (P : SessionParameters) : Type 0 where
  pub store_in : FullName
  pub function : SerializeAndSignBcFunction P
  pub signs : ScalarTag
  pub message_name : FullName
  pub serde_adapter : SerdeAdapter P

pub record ComputeSerializeAndSignElementAction (P : SessionParameters) : Type 0 where
  pub store_in : FullName
  pub index : P.Verifier
  pub function : SerializeAndSignDmFunction P
  pub signs : AnyTag
  pub message_name : FullName
  pub serde_adapter : SerdeAdapter P

pub record ComputeDeserializeElementAction (P : SessionParameters) : Type 0 where
  pub store_in : FullName
  pub index : P.Verifier
  pub function : DeserializeFunction P
  pub reads : FullName
  pub serde_adapter : SerdeAdapter P
  pub expected_senders : BTreeSet P.Verifier
  pub on_error : OnError

pub record SendBcAction (P : SessionParameters) : Type 0 where
  pub store_in : FullName
  pub to_send : FullName
  pub destinations : BTreeSet P.Verifier

pub record SendDmAction (P : SessionParameters) : Type 0 where
  pub store_in : FullName
  pub to_send : FullName
  pub destination : P.Verifier

pub record CollectAction (P : SessionParameters) : Type 0 where
  pub store_in : ScalarTag
  pub values : MappingTag
  pub sources : BTreeSet P.Verifier

pub record MergeScalarsAction : Type 0 where
  pub store_in : FullName
  pub left : ScalarTag
  pub right : ScalarTag

pub data Action (P : SessionParameters) : Type 0 where
  compute_scalar : ComputeScalarAction P → Action P
  compute_mapping_element : ComputeMappingElementAction P → Action P
  serialize_and_sign_scalar : ComputeSerializeAndSignScalarAction P → Action P
  serialize_and_sign_element : ComputeSerializeAndSignElementAction P → Action P
  deserialize_element : ComputeDeserializeElementAction P → Action P
  send_bc : SendBcAction P → Action P
  send_dm : SendDmAction P → Action P
  collect : CollectAction P → Action P
  merge_scalar : MergeScalarsAction → Action P
