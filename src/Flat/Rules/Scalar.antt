-- ===== src/Flat/Rules/Scalar.antt =====
-- ayatori/src/flat_representation/rules.rs: `ScalarRule`.
use ayatori.Prelude.{String, Bool, ◌&&◌}
use ayatori.Collections.BTreeMap.{BTreeMap}
use ayatori.Entities.Tags.{FullName, ScalarTag}
use ayatori.Entities.Params.{SessionParameters}
use ayatori.Entities.Value.{SerdeAdapter}
use ayatori.Entities.Function.{ScalarFunction, SerializeAndSignBcFunction}
use ayatori.Graph.Nodes.{ComputeScalar, SerializeAndSignBc, MergeScalars}
use ayatori.Flat.Actions.{Action, compute_scalar, serialize_and_sign_scalar, merge_scalar}
use ayatori.Flat.Conditions.Scalar
use ayatori.Flat.Conditions.Scalar.{
  ScalarCondition, from_compute_scalar, from_dependencies, from_serialize_and_sign_bc,
  from_merged_scalar,
}

pub data ScalarRuleKind (P : SessionParameters) : Type 0 where
  compute : FullName → ScalarFunction P → BTreeMap String ScalarTag → ScalarRuleKind P
  serialize_and_sign :
      FullName
      → SerializeAndSignBcFunction P
      → ScalarTag
      → FullName
      → SerdeAdapter P
      → ScalarRuleKind P
  merge : FullName → ScalarTag → ScalarTag → ScalarRuleKind P

pub record ScalarRule (P : SessionParameters) : Type 0 where
  pub dependencies_condition : ScalarCondition
  pub scalar_condition : ScalarCondition
  pub kind : ScalarRuleKind P

unfoldable pub new_merge : (P : SessionParameters) → MergeScalars → ScalarRule P
new_merge P node = record {
  dependencies_condition = Scalar.empty;
  scalar_condition = from_merged_scalar node;
  kind = merge node.store_in node.left node.right;
}

module _ {P : SessionParameters} where
  unfoldable pub new_compute : ComputeScalar P → ScalarRule P
  new_compute node = record {
    dependencies_condition = from_dependencies node.dependencies;
    scalar_condition = from_compute_scalar node;
    kind = compute node.store_in node.function node.args;
  }

  unfoldable pub new_serialize_and_sign : SerializeAndSignBc P → ScalarRule P
  new_serialize_and_sign node = record {
    dependencies_condition = Scalar.empty;
    scalar_condition = from_serialize_and_sign_bc node;
    kind =
        serialize_and_sign node.store_in node.function node.signs node.message_name
          node.serde_adapter;
  }

  pub update_with_scalar_ready : ScalarRule P → ScalarTag → ScalarRule P
  update_with_scalar_ready r tag = record r {
    scalar_condition = Scalar.update_with_scalar_ready r.scalar_condition tag;
    dependencies_condition = Scalar.update_with_scalar_ready r.dependencies_condition tag;
  }

  pub is_satisfied : ScalarRule P → Bool
  is_satisfied r =
      Scalar.is_satisfied r.dependencies_condition && Scalar.is_satisfied r.scalar_condition

  kind_action : ScalarRuleKind P → Action P
  kind_action (compute store_in function args) =
      compute_scalar (record { store_in = store_in; function = function; args = args })
  kind_action (serialize_and_sign store_in function signs message_name serde_adapter) =
      serialize_and_sign_scalar (record {
        store_in = store_in;
        function = function;
        signs = signs;
        message_name = message_name;
        serde_adapter = serde_adapter;
      })
  kind_action (merge store_in left right) =
      merge_scalar (record { store_in = store_in; left = left; right = right })

  pub into_action : ScalarRule P → Action P
  unfolding kind_action
  into_action r = kind_action r.kind
