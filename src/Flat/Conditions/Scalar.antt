-- ===== src/Flat/Conditions/Scalar.antt =====
-- ayatori/src/flat_representation/conditions.rs: `ScalarCondition` and
-- `ScalarConditionWithState`. The latter wraps the condition that is left, so it is that condition.
pub mod Ready
use ayatori.Prelude.{Bool, true, false, List, [], ◌∷◌, Option, none, some, ite}
use ayatori.Collections.BTreeSet.{BTreeSet, remove, extend}
use ayatori.Collections.BTreeMap.{values}
use ayatori.Entities.Tags.{ScalarTag, AnyTag, scalar, mapping, scalar_tag_ord, ScalarTag_discrete}
use ayatori.Entities.Params.{SessionParameters}
use ayatori.Graph.Nodes.{
  ComputeScalar, ComputeMapping, MergeScalars, SerializeAndSignBc, SerializeAndSignDm, SendBc,
}
use ayatori.Flat.Conditions.{scalars_of, verification_args}

pub record Either : Type 0 where
  pub left : ScalarTag
  pub right : ScalarTag

pub data ScalarCondition : Type 0 where
  and : BTreeSet ScalarTag → ScalarCondition
  or : Option Either → ScalarCondition

pub empty : ScalarCondition
empty = and []

-- `insert` in a loop, into an empty set.
pub from_tags : List ScalarTag → ScalarCondition
from_tags tags = and (extend [] tags)

scalar_set : AnyTag → BTreeSet ScalarTag
scalar_set (scalar t) = t ∷ []
scalar_set (mapping t) = []

pub from_dependencies : List ScalarTag → ScalarCondition
unfolding from_tags
from_dependencies nodes = from_tags nodes

pub from_merged_scalar : MergeScalars → ScalarCondition
from_merged_scalar node = or (some (record { left = node.left; right = node.right }))

module _ {P : SessionParameters} where
  pub from_compute_scalar : ComputeScalar P → ScalarCondition
  unfolding from_tags
  from_compute_scalar node = from_tags (values node.args)

  pub from_broadcast_message : SendBc P → ScalarCondition
  from_broadcast_message node = and (ScalarTag.local_signed node.sends ∷ [])

  pub from_compute_mapping : ComputeMapping P → ScalarCondition
  from_compute_mapping node = and (
      extend (extend [] (scalars_of (values node.args))) (scalars_of (verification_args node.kind)))

  pub from_serialize_and_sign_bc : SerializeAndSignBc P → ScalarCondition
  from_serialize_and_sign_bc node = and (node.signs ∷ [])

  pub from_serialize_and_sign_dm : SerializeAndSignDm P → ScalarCondition
  unfolding scalar_set
  from_serialize_and_sign_dm node = and (scalar_set node.signs)

-- `is_empty` of the condition, which is `is_satisfied` of its state.
unfoldable pub is_satisfied : ScalarCondition → Bool
is_satisfied (and []) = true
is_satisfied (and (t ∷ ts)) = false
is_satisfied (or none) = true
is_satisfied (or (some e)) = false

pub update_with_scalar_ready : ScalarCondition → ScalarTag → ScalarCondition
update_with_scalar_ready (and all_of) tag = and (remove all_of tag)
update_with_scalar_ready (or none) tag = or none
update_with_scalar_ready (or (some e)) tag =
    ite (ScalarTag_discrete e.left tag) (or none)
      (ite (ScalarTag_discrete e.right tag) (or none) (or (some e)))
