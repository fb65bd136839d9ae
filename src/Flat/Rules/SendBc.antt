-- ===== src/Flat/Rules/SendBc.antt =====
-- ayatori/src/flat_representation/rules.rs: `SendBCRule`.
use ayatori.Prelude.{Bool, ◌&&◌}
use ayatori.Collections.BTreeSet.{BTreeSet}
use ayatori.Entities.Tags.{FullName, ScalarTag}
use ayatori.Entities.Params.{SessionParameters}
use ayatori.Graph.Nodes
use ayatori.Flat.Actions.{SendBcAction}
use ayatori.Flat.Conditions.Scalar
use ayatori.Flat.Conditions.Scalar.{ScalarCondition, from_dependencies, from_broadcast_message}

pub record SendBcRule (P : SessionParameters) : Type 0 where
  pub dependencies_condition : ScalarCondition
  pub scalar_condition : ScalarCondition
  pub store_in : FullName
  pub to_send : FullName
  pub destinations : BTreeSet P.Verifier

module _ {P : SessionParameters} where
  unfoldable pub new : Nodes.SendBc P → SendBcRule P
  new node = record {
    dependencies_condition = from_dependencies node.dependencies;
    scalar_condition = from_broadcast_message node;
    store_in = node.store_in;
    to_send = node.sends;
    destinations = node.destinations;
  }

  pub is_satisfied : SendBcRule P → Bool
  is_satisfied r =
      Scalar.is_satisfied r.dependencies_condition && Scalar.is_satisfied r.scalar_condition

  pub update_with_scalar_ready : SendBcRule P → ScalarTag → SendBcRule P
  update_with_scalar_ready r tag = record r {
    scalar_condition = Scalar.update_with_scalar_ready r.scalar_condition tag;
    dependencies_condition = Scalar.update_with_scalar_ready r.dependencies_condition tag;
  }

  pub into_action : SendBcRule P → SendBcAction P
  into_action r = record {
    store_in = r.store_in;
    to_send = r.to_send;
    destinations = r.destinations;
  }
