-- ===== src/Flat/Rules/SendDm.antt =====
-- ayatori/src/flat_representation/rules.rs: `SendDMRule`.
pub mod Waiting
use ayatori.Prelude.{not, Option, none, if◌then◌else◌}
use ayatori.Collections.Order.{Ord}
use ayatori.Collections.BTreeSet.{BTreeSet}
use ayatori.Entities.Tags.{FullName, ScalarTag, MappingTag}
use ayatori.Entities.Params.{SessionParameters}
use ayatori.Graph.Nodes
use ayatori.Flat.Actions.{SendDmAction}
use ayatori.Flat.Conditions.Scalar
use ayatori.Flat.Conditions.Scalar.{ScalarCondition, from_dependencies}
use ayatori.Flat.Conditions.Element
use ayatori.Flat.Conditions.Element.{ElementConditionWithState, from_direct_message}

pub record SendDmRule (P : SessionParameters) : Type 0 where
  pub dependencies_condition : ScalarCondition
  pub element_condition : ElementConditionWithState P.Verifier
  pub store_in : FullName
  pub to_send : FullName

unfoldable pub new : (P : SessionParameters) → Nodes.SendDm → BTreeSet P.Verifier → SendDmRule P
new P node possible_ids = record {
  dependencies_condition = from_dependencies node.dependencies;
  element_condition = Element.new (from_direct_message node) possible_ids;
  store_in = node.store_in;
  to_send = node.sends;
}

module _ {P : SessionParameters} where
  pub update_with_scalar_ready : SendDmRule P → ScalarTag → SendDmRule P
  update_with_scalar_ready r tag = record r {
    dependencies_condition = Scalar.update_with_scalar_ready r.dependencies_condition tag;
  }

  pub make_action : SendDmRule P → P.Verifier → SendDmAction P
  make_action r id = record { store_in = r.store_in; to_send = r.to_send; destination = id }

module _ {P : SessionParameters} ⦃o : Ord P.Verifier⦄ where
  pub update_with_element_ready : SendDmRule P → MappingTag → P.Verifier → SendDmRule P
  update_with_element_ready r tag id = record r {
    element_condition = Element.update_with_element_ready r.element_condition tag id;
  }

  unfoldable pub pop_element : SendDmRule P → SendDmRule P × Option P.Verifier
  pop_element r =
      let (c, id) = Element.pop_satisfied r.element_condition in
      (record r { element_condition = c }, id)

  unfoldable pub pop_satisfied : SendDmRule P → SendDmRule P × Option P.Verifier
  unfolding pop_element
  pop_satisfied r =
      if not (Scalar.is_satisfied r.dependencies_condition) then (r, none) else pop_element r
