-- ===== src/Flat/Conditions/Element.antt =====
-- ayatori/src/flat_representation/conditions.rs: `ElementCondition` and
-- `ElementConditionWithState`. The former wraps the set of the tags.
pub mod Firing
pub mod Waiting
use ayatori.Prelude.{[], ◌∷◌, Option, none, some}
use ayatori.Collections.Order.{Ord}
use ayatori.Collections.BTreeSet.{BTreeSet, insert, remove, extend}
use ayatori.Collections.BTreeMap
use ayatori.Collections.BTreeMap.{BTreeMap, values}
use ayatori.Entities.Tags.{MappingTag, AnyTag, scalar, mapping, mapping_tag_ord}
use ayatori.Entities.Params.{SessionParameters}
use ayatori.Graph.Nodes.{ComputeMapping, SerializeAndSignDm, DeserializeAndCheck, SendDm}
use ayatori.Flat.Conditions.{mappings_of, verification_args}

abbrev pub ElementCondition : Type 0
ElementCondition = BTreeSet MappingTag

mapping_set : AnyTag → ElementCondition
mapping_set (scalar t) = []
mapping_set (mapping t) = t ∷ []

module _ {P : SessionParameters} where
  pub from_compute_mapping : ComputeMapping P → ElementCondition
  from_compute_mapping node =
      extend (extend [] (mappings_of (values node.args)))
        (mappings_of (verification_args node.kind))

  pub from_serialize_and_sign : SerializeAndSignDm P → ElementCondition
  unfolding mapping_set
  from_serialize_and_sign node = mapping_set node.signs

  pub from_deserialize_and_check : DeserializeAndCheck P → ElementCondition
  from_deserialize_and_check node = MappingTag.remote_signed node.reads ∷ []

pub from_direct_message : SendDm → ElementCondition
from_direct_message node = MappingTag.local_signed node.sends ∷ []

pub record ElementConditionWithState (PartyId : Type 0) : Type 0 where
  pub original_condition : ElementCondition
  pub current_conditions : BTreeMap PartyId ElementCondition
  pub triggered_for : BTreeSet PartyId

-- The conditions of each of some parties.
unfoldable pub conditions_for :
    {PartyId : Type 0} → ElementCondition → BTreeSet PartyId → BTreeMap PartyId ElementCondition
conditions_for condition [] = []
conditions_for condition (id ∷ ids) = (id, condition) ∷ conditions_for condition ids

unfoldable pub new :
    {PartyId : Type 0} → ElementCondition → BTreeSet PartyId → ElementConditionWithState PartyId
unfolding conditions_for
new condition possible_ids = record {
  original_condition = condition;
  current_conditions = conditions_for condition possible_ids;
  triggered_for = [];
}

-- The first party, in the order of the identifiers, of which all the elements are there.
unfoldable pub find_satisfied :
    {PartyId : Type 0} → BTreeMap PartyId ElementCondition → Option PartyId
find_satisfied [] = none
find_satisfied ((id, []) ∷ m) = some id
find_satisfied ((id, t ∷ ts) ∷ m) = find_satisfied m

module _ {PartyId : Type 0} ⦃o : Ord PartyId⦄ where
  unfoldable pub update_with_element_ready :
      ElementConditionWithState PartyId → MappingTag → PartyId → ElementConditionWithState PartyId
  update_with_element_ready c tag id = record c {
    current_conditions = BTreeMap.update c.current_conditions id (λ tags. remove tags tag);
  }

  unfoldable pub trigger :
      ElementConditionWithState PartyId
      → Option PartyId
      → ElementConditionWithState PartyId × Option PartyId
  trigger c none = (c, none)
  trigger c (some id) = (
    record c {
      current_conditions = BTreeMap.remove c.current_conditions id;
      triggered_for = insert c.triggered_for id;
    },
    some id,
  )

  unfoldable pub pop_satisfied :
      ElementConditionWithState PartyId → ElementConditionWithState PartyId × Option PartyId
  unfolding trigger
  pop_satisfied c = trigger c (find_satisfied c.current_conditions)
