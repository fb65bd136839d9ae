-- ===== src/Flat/Ruleset/Build.antt =====
-- ayatori/src/flat_representation/ruleset.rs: `Ruleset::new`, the rules of the graph below a node.
pub mod Slots
pub mod Total
pub mod Graphs
pub mod Refinement
use ayatori.Prelude.{String, List, [], ◌∷◌, ◌++◌, Option, none, some}
use ayatori.Collections.Order.{Ord, string_ord}
use ayatori.Collections.BTreeSet.{BTreeSet}
use ayatori.Collections.BTreeMap.{BTreeMap, get, insert}
use ayatori.Entities.Tags.{
  FullName, full_name_ord, MappingTag, computed, sent, received, local_signed, remote_signed,
}
use ayatori.Entities.Errors.{Result, ok, err, ◌>>=◌, RuntimeError, failed, wrong_type}
use ayatori.Entities.Params.{SessionParameters}
use ayatori.Graph.AnyNode.{
  AnyNode, compute_scalar, collect, compute_mapping, serialize_and_sign_bc, serialize_and_sign_dm,
  deserialize_and_check, send_bc, send_dm, send_all, receive, scalar_argument, merge_scalars,
  store_in,
}
use ayatori.Graph.AnyNode.Tree.{flattened_leaves_first}
use ayatori.Graph.AnyNode.Views.{
  scalar_tag, mapping_tag, scalar_args, any_args, dependency_tags, scalar_function,
  mapping_function, mapping_kind, signed_bc_tag, signed_dm_tag, sent_dm_tag, receive_tag,
}
use ayatori.Flat.Actions.{OnError}
use ayatori.Flat.Ruleset.{Ruleset}
use ayatori.Flat.Ruleset.Groups
use ayatori.Flat.Ruleset.Groups.{PropagatedGroups, get_on_error}
use ayatori.Flat.Rules.Scalar
use ayatori.Flat.Rules.Collect
use ayatori.Flat.Rules.Mapping
use ayatori.Flat.Rules.SendBc
use ayatori.Flat.Rules.SendDm
use ayatori.Flat.Ruleset.Building.{
  Building, nothing_built, output_tag_of, senders_of, with_collect_rule, with_mapping_rule,
  with_scalar_rule, with_send_bc_rule, with_send_dm_rule,
}

module _ {P : SessionParameters} ⦃o : Ord P.Verifier⦄ where
  -- The body of the loop. `on_error` is `get_on_error` of the node.
  unfoldable pub add_rule :
      PropagatedGroups P.Verifier
      → OnError
      → Building P
      → AnyNode P
      → Result RuntimeError (Building P)
  add_rule groups on_error b (scalar_argument i tag name) =
      ok (record b { rules = record (b.rules) { arguments = insert (b.rules.arguments) name tag } })
  add_rule groups on_error b (compute_scalar i tag kind args nodes) = do
    tags ← scalar_args args
    dependencies ← dependency_tags nodes
    ok (
        with_scalar_rule b (
          Scalar.new_compute (record {
            store_in = tag;
            function = scalar_function kind;
            args = tags;
            dependencies = dependencies;
          })))
  add_rule groups on_error b (compute_mapping i tag args kind nodes) = do
    dependencies ← dependency_tags nodes
    possible_ids ← Groups.get groups (computed tag)
    ok (
        with_mapping_rule b (
          Mapping.new_compute
            (record {
              store_in = tag;
              function = mapping_function kind;
              kind = mapping_kind kind;
              args = any_args args;
              dependencies = dependencies;
            })
            possible_ids on_error))
  add_rule groups on_error b (serialize_and_sign_bc i tag function signs adapter name) = do
    signed ← scalar_tag signs
    ok (
        with_scalar_rule b (
          Scalar.new_serialize_and_sign (record {
            store_in = tag;
            function = function;
            signs = signed;
            message_name = name;
            serde_adapter = adapter;
          })))
  add_rule groups on_error b (serialize_and_sign_dm i tag function signs adapter name) = do
    possible_ids ← Groups.get groups (local_signed tag)
    ok (
        with_mapping_rule b (
          Mapping.new_serialize_and_sign
            (record {
              store_in = tag;
              function = function;
              signs = store_in signs;
              message_name = name;
              serde_adapter = adapter;
            })
            possible_ids))
  add_rule groups on_error b (deserialize_and_check i tag function reads adapter name) = do
    read ← receive_tag reads
    possible_ids ← Groups.get groups (received tag)
    expected_senders ← senders_of (b.expected_messages) name
    ok (
        with_mapping_rule b (
          Mapping.new_deserialize
            (record {
              store_in = tag;
              function = function;
              reads = read;
              message_name = name;
              serde_adapter = adapter;
            })
            expected_senders possible_ids on_error))
  add_rule groups on_error b (send_bc i tag sends destinations nodes) = do
    sent_tag ← signed_bc_tag sends
    dependencies ← dependency_tags nodes
    ok (
        with_send_bc_rule b (
          SendBc.new (record {
            store_in = tag;
            sends = sent_tag;
            destinations = destinations;
            dependencies = dependencies;
          })))
  add_rule groups on_error b (send_dm i tag sends nodes) = do
    sent_tag ← signed_dm_tag sends
    dependencies ← dependency_tags nodes
    possible_ids ← Groups.get groups (sent tag)
    ok (
        with_send_dm_rule b (
          SendDm.new P (record { store_in = tag; sends = sent_tag; dependencies = dependencies })
            possible_ids))
  add_rule groups on_error b (collect i tag values group nodes) = do
    collected ← mapping_tag values
    dependencies ← dependency_tags nodes
    ok (
        with_collect_rule b (
          Collect.new (record {
            store_in = tag;
            values = collected;
            group = group;
            dependencies = dependencies;
          })))
  add_rule groups on_error b (send_all i tag values destinations) = do
    sent_tag ← sent_dm_tag values
    ok (
        with_collect_rule b (
          Collect.new_send_all
            (record { store_in = tag; values = sent_tag; destinations = destinations })))
  add_rule groups on_error b (receive i tag message_name) = do
    possible_ids ← Groups.get groups (remote_signed tag)
    ok (record b { expected_messages = insert (b.expected_messages) message_name possible_ids })
  add_rule groups on_error b (merge_scalars i tag left right) = do
    left_tag ← scalar_tag left
    right_tag ← scalar_tag right
    ok (
        with_scalar_rule b
          (Scalar.new_merge P (record { store_in = tag; left = left_tag; right = right_tag })))

  unfoldable pub add_rules :
      PropagatedGroups P.Verifier
      → BTreeSet String
      → Building P
      → List (AnyNode P)
      → Result RuntimeError (Building P)
  add_rules groups private_inputs b [] = ok b
  add_rules groups private_inputs b (node ∷ nodes) =
      add_rule groups (get_on_error node private_inputs) b node >>= λ next.
      add_rules groups private_inputs next nodes

  unfoldable pub new : AnyNode P → BTreeSet String → Result RuntimeError (Ruleset P)
  new output_node private_inputs = do
    output_tag ← output_tag_of output_node
    groups ← Groups.new output_node
    built ←
        add_rules groups private_inputs (nothing_built output_tag)
          (flattened_leaves_first output_node)
    ok (built.rules)
