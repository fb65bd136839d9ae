-- ===== src/Graph/Nodes.antt =====
-- ayatori/src/graph_representation/specific_nodes.rs: the nodes, as far as the rules read them. An
-- argument or a dependency of a node is a node, of which the rules read the tag alone
-- (`store_in()`), so it is that tag here.
use ayatori.Prelude.{String, List}
use ayatori.Collections.BTreeSet.{BTreeSet}
use ayatori.Collections.BTreeMap.{BTreeMap}
use ayatori.Entities.Tags.{FullName, ScalarTag, MappingTag, AnyTag, CollectedTag}
use ayatori.Entities.Params.{SessionParameters}
use ayatori.Entities.Party.{PartyGroup}
use ayatori.Entities.Value.{SerdeAdapter}
use ayatori.Entities.Function.{
  ScalarFunction, MappingFunction, SerializeAndSignBcFunction, SerializeAndSignDmFunction,
  DeserializeFunction,
}

pub record ComputeScalar (P : SessionParameters) : Type 0 where
  pub store_in : FullName
  pub function : ScalarFunction P
  pub args : BTreeMap String ScalarTag
  pub dependencies : List ScalarTag

-- The arguments of the verification, which a function with a reveal has and no other.
pub data ComputeMappingKind : Type 0 where
  simple third_party_attributable : ComputeMappingKind
  with_reveal : BTreeMap String AnyTag → ComputeMappingKind

pub record ComputeMapping (P : SessionParameters) : Type 0 where
  pub store_in : FullName
  pub function : MappingFunction P
  pub kind : ComputeMappingKind
  pub args : BTreeMap String AnyTag
  pub dependencies : List ScalarTag

pub record MergeScalars : Type 0 where
  pub store_in : FullName
  pub left : ScalarTag
  pub right : ScalarTag

pub record SerializeAndSignBc (P : SessionParameters) : Type 0 where
  pub store_in : FullName
  pub function : SerializeAndSignBcFunction P
  pub signs : ScalarTag
  pub message_name : FullName
  pub serde_adapter : SerdeAdapter P

pub record SerializeAndSignDm (P : SessionParameters) : Type 0 where
  pub store_in : FullName
  pub function : SerializeAndSignDmFunction P
  pub signs : AnyTag
  pub message_name : FullName
  pub serde_adapter : SerdeAdapter P

pub record DeserializeAndCheck (P : SessionParameters) : Type 0 where
  pub store_in : FullName
  pub function : DeserializeFunction P
  pub reads : FullName
  pub message_name : FullName
  pub serde_adapter : SerdeAdapter P

pub record SendBc (P : SessionParameters) : Type 0 where
  pub store_in : FullName
  pub sends : FullName
  pub destinations : BTreeSet P.Verifier
  pub dependencies : List ScalarTag

pub record SendDm : Type 0 where
  pub store_in : FullName
  pub sends : FullName
  pub dependencies : List ScalarTag

pub record Collect (P : SessionParameters) : Type 0 where
  pub store_in : CollectedTag
  pub values : MappingTag
  pub group : PartyGroup P.Verifier
  pub dependencies : List ScalarTag

pub record SendAll (P : SessionParameters) : Type 0 where
  pub store_in : FullName
  pub values : FullName
  pub destinations : BTreeSet P.Verifier
