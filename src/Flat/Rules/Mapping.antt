-- ===== src/Flat/Rules/Mapping.antt =====
-- ayatori/src/flat_representation/rules.rs: `MappingRule`.
pub mod Waiting
use ayatori.Prelude.{String, Bool, ◌&&◌, ◌||◌, not, Option, none, if◌then◌else◌}
use ayatori.Collections.Order.{Ord}
use ayatori.Collections.BTreeSet.{BTreeSet}
use ayatori.Collections.BTreeMap.{BTreeMap}
use ayatori.Entities.Tags.{FullName, ScalarTag, MappingTag, AnyTag}
use ayatori.Entities.Params.{SessionParameters}
use ayatori.Entities.Value.{SerdeAdapter}
use ayatori.Entities.Function.{MappingFunction, SerializeAndSignDmFunction, DeserializeFunction}
use ayatori.Graph.Nodes.{ComputeMapping, SerializeAndSignDm, DeserializeAndCheck}
use ayatori.Flat.Actions.{
  OnError, Action, compute_mapping_element, serialize_and_sign_element, deserialize_element,
}
use ayatori.Flat.Conditions.Scalar
use ayatori.Flat.Conditions.Scalar.{ScalarCondition, from_dependencies, from_serialize_and_sign_dm}
use ayatori.Flat.Conditions.Element
use ayatori.Flat.Conditions.Element.{
  ElementConditionWithState, from_serialize_and_sign, from_deserialize_and_check,
}

pub data MappingRuleKind (P : SessionParameters) : Type 0 where
  compute : FullName → MappingFunction P → BTreeMap String AnyTag → OnError → MappingRuleKind P
  serialize_and_sign :
      FullName
      → SerializeAndSignDmFunction P
      → AnyTag
      → FullName
      → SerdeAdapter P
      → MappingRuleKind P
  deserialize :
      FullName
      → DeserializeFunction P
      → FullName
      → SerdeAdapter P
      → BTreeSet P.Verifier
      → OnError
      → MappingRuleKind P

pub record MappingRule (P : SessionParameters) : Type 0 where
  pub dependencies_condition : ScalarCondition
  pub scalar_condition : ScalarCondition
  pub element_condition : ElementConditionWithState P.Verifier
  pub kind : MappingRuleKind P

module _ {P : SessionParameters} where
  unfoldable pub new_compute : ComputeMapping P → BTreeSet P.Verifier → OnError → MappingRule P
  new_compute node possible_ids on_error = record {
    dependencies_condition = from_dependencies node.dependencies;
    scalar_condition = Scalar.from_compute_mapping node;
    element_condition = Element.new (Element.from_compute_mapping node) possible_ids;
    kind = compute node.store_in node.function node.args on_error;
  }

  unfoldable pub new_serialize_and_sign : SerializeAndSignDm P → BTreeSet P.Verifier → MappingRule P
  new_serialize_and_sign node possible_ids = record {
    dependencies_condition = Scalar.empty;
    scalar_condition = from_serialize_and_sign_dm node;
    element_condition = Element.new (from_serialize_and_sign node) possible_ids;
    kind =
        serialize_and_sign node.store_in node.function node.signs node.message_name
          node.serde_adapter;
  }

  unfoldable pub new_deserialize :
      DeserializeAndCheck P → BTreeSet P.Verifier → BTreeSet P.Verifier → OnError → MappingRule P
  new_deserialize node expected_senders possible_ids on_error = record {
    dependencies_condition = Scalar.empty;
    scalar_condition = Scalar.empty;
    element_condition = Element.new (from_deserialize_and_check node) possible_ids;
    kind =
        deserialize node.store_in node.function node.reads node.serde_adapter expected_senders
          on_error;
  }

  pub update_with_scalar_ready : MappingRule P → ScalarTag → MappingRule P
  update_with_scalar_ready r tag = record r {
    scalar_condition = Scalar.update_with_scalar_ready r.scalar_condition tag;
    dependencies_condition = Scalar.update_with_scalar_ready r.dependencies_condition tag;
  }

  -- The scalars that the rule waits for are all there.
  pub scalars_are_ready : MappingRule P → Bool
  scalars_are_ready r =
      Scalar.is_satisfied r.dependencies_condition && Scalar.is_satisfied r.scalar_condition

  kind_action : MappingRuleKind P → P.Verifier → Action P
  kind_action (compute store_in function args on_error) id = compute_mapping_element (record {
    store_in = store_in;
    index = id;
    function = function;
    args = args;
    on_error = on_error;
  })
  kind_action (serialize_and_sign store_in function signs message_name serde_adapter) id =
      serialize_and_sign_element (record {
        store_in = store_in;
        index = id;
        function = function;
        signs = signs;
        message_name = message_name;
        serde_adapter = serde_adapter;
      })
  kind_action (deserialize store_in function reads serde_adapter expected_senders on_error) id =
      deserialize_element (record {
        store_in = store_in;
        index = id;
        function = function;
        reads = reads;
        serde_adapter = serde_adapter;
        expected_senders = expected_senders;
        on_error = on_error;
      })

  pub make_action : MappingRule P → P.Verifier → Action P
  unfolding kind_action
  make_action r id = kind_action r.kind id

module _ {P : SessionParameters} ⦃o : Ord P.Verifier⦄ where
  pub update_with_element_ready : MappingRule P → MappingTag → P.Verifier → MappingRule P
  update_with_element_ready r tag id = record r {
    element_condition = Element.update_with_element_ready r.element_condition tag id;
  }

  pop_element : MappingRule P → MappingRule P × Option P.Verifier
  pop_element r =
      let (c, id) = Element.pop_satisfied r.element_condition in
      (record r { element_condition = c }, id)

  pub pop_satisfied : MappingRule P → MappingRule P × Option P.Verifier
  unfolding pop_element
  pop_satisfied r =
      if not (Scalar.is_satisfied r.dependencies_condition)
        || not (Scalar.is_satisfied r.scalar_condition)
      then (r, none)
      else pop_element r
