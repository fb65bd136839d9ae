-- ===== src/Flat/Conditions/Quorum.antt =====
-- ayatori/src/flat_representation/conditions.rs: `QuorumCondition` and
-- `QuorumConditionWithState`.
pub mod Bans
use ayatori.Prelude.{Bool, [], ite}
use ayatori.Collections.Order.{Ord}
use ayatori.Collections.BTreeSet.{BTreeSet, insert, remove}
use ayatori.Entities.Tags.{MappingTag, MappingTag_discrete}
use ayatori.Entities.Params.{SessionParameters}
use ayatori.Entities.Party.{PartyGroup, new_group, clone_box}
use ayatori.Graph.Nodes.{Collect, SendAll}

pub record QuorumCondition (PartyId : Type 0) : Type 0 where
  pub tag : MappingTag
  pub group : PartyGroup PartyId

pub record QuorumConditionWithState (PartyId : Type 0) : Type 0 where
  pub original_condition : QuorumCondition PartyId
  pub got_ids : BTreeSet PartyId
  pub banned_ids : BTreeSet PartyId

module _ {P : SessionParameters} where
  pub from_collect : Collect P → QuorumCondition P.Verifier
  from_collect node = record { tag = node.values; group = node.group }

  pub from_send_all : ⦃o : Ord P.Verifier⦄ → SendAll P → QuorumCondition P.Verifier
  from_send_all node = record {
    tag = MappingTag.sent node.values;
    group = clone_box (new_group node.destinations);
  }

module _ {PartyId : Type 0} where
  unfoldable pub new : QuorumCondition PartyId → QuorumConditionWithState PartyId
  new condition = record { original_condition = condition; got_ids = []; banned_ids = [] }

  unfoldable pub is_satisfiable : QuorumConditionWithState PartyId → Bool
  is_satisfiable c = c.original_condition.group.is_quorum_possible c.banned_ids

  pub is_satisfied : QuorumConditionWithState PartyId → Bool
  is_satisfied c = c.original_condition.group.has_quorum c.got_ids

  pub available_ids : QuorumConditionWithState PartyId → BTreeSet PartyId
  available_ids c = c.got_ids

module _ {PartyId : Type 0} ⦃o : Ord PartyId⦄ where
  unfoldable pub update_with_banned_party :
      QuorumConditionWithState PartyId → PartyId → QuorumConditionWithState PartyId
  update_with_banned_party c id = record c {
    got_ids = remove c.got_ids id;
    banned_ids = insert c.banned_ids id;
  }

  unfoldable pub update_with_element_ready :
      QuorumConditionWithState PartyId → MappingTag → PartyId → QuorumConditionWithState PartyId
  update_with_element_ready c tag id =
      ite (MappingTag_discrete c.original_condition.tag tag)
        (record c { got_ids = insert c.got_ids id }) c
