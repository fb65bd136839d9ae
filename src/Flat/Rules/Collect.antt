-- ===== src/Flat/Rules/Collect.antt =====
-- ayatori/src/flat_representation/rules.rs: `CollectRule`.
use ayatori.Prelude.{Bool, ◌&&◌}
use ayatori.Collections.Order.{Ord}
use ayatori.Entities.Tags.{ScalarTag, MappingTag}
use ayatori.Entities.Params.{SessionParameters}
use ayatori.Graph.Nodes.{SendAll}
use ayatori.Graph.Nodes
use ayatori.Flat.Actions.{CollectAction}
use ayatori.Flat.Conditions.Scalar
use ayatori.Flat.Conditions.Scalar.{ScalarCondition, from_dependencies}
use ayatori.Flat.Conditions.Quorum
use ayatori.Flat.Conditions.Quorum.{QuorumConditionWithState, from_collect, from_send_all}

pub record CollectRule (P : SessionParameters) : Type 0 where
  pub dependencies_condition : ScalarCondition
  pub quorum_condition : QuorumConditionWithState P.Verifier
  pub store_in : ScalarTag
  pub values : MappingTag

module _ {P : SessionParameters} where
  unfoldable pub new : Nodes.Collect P → CollectRule P
  new node = record {
    dependencies_condition = from_dependencies node.dependencies;
    quorum_condition = Quorum.new (from_collect node);
    store_in = ScalarTag.collected node.store_in;
    values = node.values;
  }

  unfoldable pub new_send_all : ⦃o : Ord P.Verifier⦄ → SendAll P → CollectRule P
  new_send_all node = record {
    dependencies_condition = Scalar.empty;
    quorum_condition = Quorum.new (from_send_all node);
    store_in = ScalarTag.sent_all node.store_in;
    values = MappingTag.sent node.values;
  }

  pub update_with_scalar_ready : CollectRule P → ScalarTag → CollectRule P
  update_with_scalar_ready r tag = record r {
    dependencies_condition = Scalar.update_with_scalar_ready r.dependencies_condition tag;
  }

  pub is_satisfied : CollectRule P → Bool
  is_satisfied r =
      Scalar.is_satisfied r.dependencies_condition && Quorum.is_satisfied r.quorum_condition

  pub is_satisfiable : CollectRule P → Bool
  is_satisfiable r = Quorum.is_satisfiable r.quorum_condition

  pub into_action : CollectRule P → CollectAction P
  into_action r = record {
    store_in = r.store_in;
    values = r.values;
    sources = Quorum.available_ids r.quorum_condition;
  }

module _ {P : SessionParameters} ⦃o : Ord P.Verifier⦄ where
  pub update_with_element_ready : CollectRule P → MappingTag → P.Verifier → CollectRule P
  update_with_element_ready r tag id = record r {
    quorum_condition = Quorum.update_with_element_ready r.quorum_condition tag id;
  }

  pub update_with_banned_party : CollectRule P → P.Verifier → CollectRule P
  update_with_banned_party r id = record r {
    quorum_condition = Quorum.update_with_banned_party r.quorum_condition id;
  }
