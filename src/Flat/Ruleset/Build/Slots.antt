-- ===== src/Flat/Ruleset/Build/Slots.antt =====
-- What `Ruleset::new` of ayatori/src/flat_representation/ruleset.rs promises: the slots that the rules fill,
-- which are those of the nodes of the graph, a rule for a node. The promise is a walk over the nodes that
-- knows nothing of conditions, functions or parties.
use ayatori.Prelude.{String, List, [], ◌∷◌, ◌++◌, ◌≡◌, ap, map}
use mathlib.Core.List.{map-append}
use ayatori.Collections.Order.{string_ord}
use ayatori.Collections.BTreeMap.{BTreeMap, insert}
use ayatori.Entities.Tags.{FullName, ScalarTag, MappingTag}
use ayatori.Entities.Params.{SessionParameters}
use ayatori.Graph.AnyNode.{
  AnyNode, compute_scalar, collect, compute_mapping, serialize_and_sign_bc, serialize_and_sign_dm,
  deserialize_and_check, send_bc, send_dm, send_all, receive, scalar_argument, merge_scalars,
}
use ayatori.Flat.Ruleset.{Ruleset}
use ayatori.Flat.Ruleset.Building.{
  Building, with_scalar_rule, with_collect_rule, with_mapping_rule, with_send_bc_rule,
  with_send_dm_rule,
}
use ayatori.Flat.Rules.Scalar
use ayatori.Flat.Rules.Collect
use ayatori.Flat.Rules.Mapping
use ayatori.Flat.Rules.SendBc
use ayatori.Flat.Rules.SendDm

pub record Slots : Type 0 where
  pub output_tag : FullName
  pub scalars : List ScalarTag
  pub collects : List ScalarTag
  pub mappings : List MappingTag
  pub broadcasts : List FullName
  pub direct_messages : List FullName
  pub arguments : BTreeMap String FullName

unfoldable pub no_slots : FullName → Slots
no_slots output_tag = record {
  output_tag = output_tag;
  scalars = [];
  collects = [];
  mappings = [];
  broadcasts = [];
  direct_messages = [];
  arguments = [];
}

unfoldable pub with_scalar : Slots → ScalarTag → Slots
with_scalar s tag = record s { scalars = s.scalars ++ tag ∷ [] }

unfoldable pub with_collect : Slots → ScalarTag → Slots
with_collect s tag = record s { collects = s.collects ++ tag ∷ [] }

unfoldable pub with_mapping : Slots → MappingTag → Slots
with_mapping s tag = record s { mappings = s.mappings ++ tag ∷ [] }

module _ {P : SessionParameters} where
  unfoldable pub with_node : Slots → AnyNode P → Slots
  with_node s (compute_scalar i tag kind args nodes) = with_scalar s (ScalarTag.computed tag)
  with_node s (serialize_and_sign_bc i tag function signs adapter name) =
      with_scalar s (ScalarTag.local_signed tag)
  with_node s (merge_scalars i tag left right) = with_scalar s (ScalarTag.merged tag)
  with_node s (collect i tag values group nodes) = with_collect s (ScalarTag.collected tag)
  with_node s (send_all i tag values destinations) = with_collect s (ScalarTag.sent_all tag)
  with_node s (compute_mapping i tag args kind nodes) = with_mapping s (MappingTag.computed tag)
  with_node s (serialize_and_sign_dm i tag function signs adapter name) =
      with_mapping s (MappingTag.local_signed tag)
  with_node s (deserialize_and_check i tag function reads adapter name) =
      with_mapping s (MappingTag.received tag)
  with_node s (send_bc i tag sends destinations nodes) = record s {
    broadcasts = s.broadcasts ++ tag ∷ [];
  }
  with_node s (send_dm i tag sends nodes) = record s {
    direct_messages = s.direct_messages ++ tag ∷ [];
  }
  with_node s (scalar_argument i tag name) = record s { arguments = insert (s.arguments) name tag }
  with_node s (receive i tag message_name) = s

  unfoldable pub with_nodes : Slots → List (AnyNode P) → Slots
  with_nodes s [] = s
  with_nodes s (node ∷ nodes) = with_nodes (with_node s node) nodes

  -- The slot that a rule fills.
  unfoldable pub scalar_slot : Scalar.ScalarRuleKind P → ScalarTag
  scalar_slot (Scalar.ScalarRuleKind.compute tag function args) = ScalarTag.computed tag
  scalar_slot (Scalar.ScalarRuleKind.serialize_and_sign tag function signs name adapter) =
      ScalarTag.local_signed tag
  scalar_slot (Scalar.ScalarRuleKind.merge tag left right) = ScalarTag.merged tag

  unfoldable pub mapping_slot : Mapping.MappingRuleKind P → MappingTag
  mapping_slot (Mapping.MappingRuleKind.compute tag function args on_error) =
      MappingTag.computed tag
  mapping_slot (Mapping.MappingRuleKind.serialize_and_sign tag function signs name adapter) =
      MappingTag.local_signed tag
  mapping_slot (Mapping.MappingRuleKind.deserialize tag function reads adapter senders on_error) =
      MappingTag.received tag

  unfoldable pub slots : Ruleset P → Slots
  slots r = record {
    output_tag = r.output_tag;
    scalars = map (λ rule. scalar_slot (rule.kind)) (r.scalar_rules);
    collects = map (λ rule. rule.store_in) (r.collect_rules);
    mappings = map (λ rule. mapping_slot (rule.kind)) (r.mapping_rules);
    broadcasts = map (λ rule. rule.store_in) (r.send_bc_rules);
    direct_messages = map (λ rule. rule.store_in) (r.send_dm_rules);
    arguments = r.arguments;
  }

  pub slots-scalar :
      (b : Building P) (rule : Scalar.ScalarRule P)
      → slots ((with_scalar_rule b rule).rules)
        ≡ with_scalar (slots (b.rules)) (scalar_slot (rule.kind))
  unfolding slots with_scalar_rule with_scalar
  slots-scalar b rule =
      ap (λ xs. record (slots (b.rules)) { scalars = xs })
        (map-append (λ r. scalar_slot (r.kind)) (b.rules.scalar_rules) (rule ∷ []))

  pub slots-collect :
      (b : Building P) (rule : Collect.CollectRule P)
      → slots ((with_collect_rule b rule).rules) ≡ with_collect (slots (b.rules)) (rule.store_in)
  unfolding slots with_collect_rule with_collect with_mapping
  slots-collect b rule =
      ap (λ xs. record (slots (b.rules)) { collects = xs })
        (map-append (λ r. r.store_in) (b.rules.collect_rules) (rule ∷ []))

  pub slots-mapping :
      (b : Building P) (rule : Mapping.MappingRule P)
      → slots ((with_mapping_rule b rule).rules)
        ≡ with_mapping (slots (b.rules)) (mapping_slot (rule.kind))
  unfolding slots with_mapping_rule with_collect with_mapping
  slots-mapping b rule =
      ap (λ xs. record (slots (b.rules)) { mappings = xs })
        (map-append (λ r. mapping_slot (r.kind)) (b.rules.mapping_rules) (rule ∷ []))

  pub slots-send_bc :
      (b : Building P) (rule : SendBc.SendBcRule P)
      → slots ((with_send_bc_rule b rule).rules) ≡ record (slots (b.rules)) {
        broadcasts = (slots (b.rules)).broadcasts ++ rule.store_in ∷ [];
      }
  unfolding slots with_send_bc_rule with_collect with_mapping
  slots-send_bc b rule =
      ap (λ xs. record (slots (b.rules)) { broadcasts = xs })
        (map-append (λ r. r.store_in) (b.rules.send_bc_rules) (rule ∷ []))

  pub slots-send_dm :
      (b : Building P) (rule : SendDm.SendDmRule P)
      → slots ((with_send_dm_rule b rule).rules) ≡ record (slots (b.rules)) {
        direct_messages = (slots (b.rules)).direct_messages ++ rule.store_in ∷ [];
      }
  unfolding slots with_send_dm_rule with_collect with_mapping
  slots-send_dm b rule =
      ap (λ xs. record (slots (b.rules)) { direct_messages = xs })
        (map-append (λ r. r.store_in) (b.rules.send_dm_rules) (rule ∷ []))
