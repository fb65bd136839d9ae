-- ===== src/Flat/Ruleset/Build/Refinement.antt =====
-- That the rules that `Ruleset::new` of ayatori/src/flat_representation/ruleset.rs makes fill the slots that it
-- promises.
use ayatori.Prelude.{String, List, [], ◌∷◌, ◌≡◌, refl, sym, ap, ◌∙◌}
use ayatori.Collections.Order.{Ord, string_ord}
use ayatori.Collections.BTreeSet.{BTreeSet}
use ayatori.Entities.Tags.{FullName, MappingTag}
use ayatori.Entities.Errors.{ok, bind-ok, ok_injective}
use ayatori.Entities.Params.{SessionParameters}
use ayatori.Graph.AnyNode.{
  AnyNode, compute_scalar, collect, compute_mapping, serialize_and_sign_bc, serialize_and_sign_dm,
  deserialize_and_check, send_bc, send_dm, send_all, receive, scalar_argument, merge_scalars,
}
use ayatori.Graph.AnyNode.Tree.{flattened_leaves_first}
use ayatori.Graph.AnyNode.Views.{
  scalar_tag, mapping_tag, scalar_args, dependency_tags, signed_bc_tag, signed_dm_tag, sent_dm_tag,
  receive_tag,
}
use ayatori.Flat.Actions.{OnError}
use ayatori.Flat.Ruleset.{Ruleset}
use ayatori.Flat.Ruleset.Groups
use ayatori.Flat.Ruleset.Groups.{PropagatedGroups, get_on_error}
use ayatori.Flat.Ruleset.Build.{add_rule, add_rules, new}
use ayatori.Flat.Ruleset.Building.{Building, nothing_built, senders_of, output_tag_of}
use ayatori.Flat.Rules.Scalar
use ayatori.Flat.Rules.Collect
use ayatori.Flat.Rules.Mapping
use ayatori.Flat.Rules.SendBc
use ayatori.Flat.Rules.SendDm
use ayatori.Flat.Ruleset.Build.Slots.{
  mapping_slot, no_slots, scalar_slot, slots, slots-collect, slots-mapping, slots-scalar,
  slots-send_bc, slots-send_dm, with_node, with_nodes,
}

module _ {P : SessionParameters} ⦃o : Ord P.Verifier⦄ where
  slots-add_rule :
      (groups : PropagatedGroups P.Verifier) (on_error : OnError) (b : Building P)
      (node : AnyNode P) (b' : Building P)
      → add_rule groups on_error b node ≡ ok b'
      → slots (b'.rules) ≡ with_node (slots (b.rules)) node
  unfolding add_rule with_node scalar_slot mapping_slot slots Scalar.new_compute
      Scalar.new_serialize_and_sign Scalar.new_merge Mapping.new_compute
      Mapping.new_serialize_and_sign Mapping.new_deserialize Collect.new Collect.new_send_all
      SendBc.new SendDm.new
  slots-add_rule groups on_error b (scalar_argument i tag name) b' h =
      rw (sym (ok_injective h)) (refl)
  slots-add_rule groups on_error b (compute_scalar i tag kind args nodes) b' h =
      let p0 = bind-ok (scalar_args args) _ b' h in
      let p1 = bind-ok (dependency_tags nodes) _ b' p0.2 in
      rw (sym (ok_injective p1.2)) (slots-scalar b _)
  slots-add_rule groups on_error b (compute_mapping i tag args kind nodes) b' h =
      let p0 = bind-ok (dependency_tags nodes) _ b' h in
      let p1 = bind-ok (Groups.get groups (MappingTag.computed tag)) _ b' p0.2 in
      rw (sym (ok_injective p1.2)) (slots-mapping b _)
  slots-add_rule groups on_error b (serialize_and_sign_bc i tag function signs adapter name) b' h =
      let p0 = bind-ok (scalar_tag signs) _ b' h in rw (sym (ok_injective p0.2)) (slots-scalar b _)
  slots-add_rule groups on_error b (serialize_and_sign_dm i tag function signs adapter name) b' h =
      let p0 = bind-ok (Groups.get groups (MappingTag.local_signed tag)) _ b' h in
      rw (sym (ok_injective p0.2)) (slots-mapping b _)
  slots-add_rule groups on_error b (deserialize_and_check i tag function reads adapter name) b' h =
      let p0 = bind-ok (receive_tag reads) _ b' h in
      let p1 = bind-ok (Groups.get groups (MappingTag.received tag)) _ b' p0.2 in
      let p2 = bind-ok (senders_of (b.expected_messages) name) _ b' p1.2 in
      rw (sym (ok_injective p2.2)) (slots-mapping b _)
  slots-add_rule groups on_error b (send_bc i tag sends destinations nodes) b' h =
      let p0 = bind-ok (signed_bc_tag sends) _ b' h in
      let p1 = bind-ok (dependency_tags nodes) _ b' p0.2 in
      rw (sym (ok_injective p1.2)) (slots-send_bc b _)
  slots-add_rule groups on_error b (send_dm i tag sends nodes) b' h =
      let p0 = bind-ok (signed_dm_tag sends) _ b' h in
      let p1 = bind-ok (dependency_tags nodes) _ b' p0.2 in
      let p2 = bind-ok (Groups.get groups (MappingTag.sent tag)) _ b' p1.2 in
      rw (sym (ok_injective p2.2)) (slots-send_dm b _)
  slots-add_rule groups on_error b (collect i tag values group nodes) b' h =
      let p0 = bind-ok (mapping_tag values) _ b' h in
      let p1 = bind-ok (dependency_tags nodes) _ b' p0.2 in
      rw (sym (ok_injective p1.2)) (slots-collect b _)
  slots-add_rule groups on_error b (send_all i tag values destinations) b' h =
      let p0 = bind-ok (sent_dm_tag values) _ b' h in
      rw (sym (ok_injective p0.2)) (slots-collect b _)
  slots-add_rule groups on_error b (receive i tag message_name) b' h =
      let p0 = bind-ok (Groups.get groups (MappingTag.remote_signed tag)) _ b' h in
      rw (sym (ok_injective p0.2)) (refl)
  slots-add_rule groups on_error b (merge_scalars i tag left right) b' h =
      let p0 = bind-ok (scalar_tag left) _ b' h in
      let p1 = bind-ok (scalar_tag right) _ b' p0.2 in
      rw (sym (ok_injective p1.2)) (slots-scalar b _)

  slots-add_rules :
      (groups : PropagatedGroups P.Verifier) (private_inputs : BTreeSet String) (b : Building P)
      (nodes : List (AnyNode P)) (b' : Building P)
      → add_rules groups private_inputs b nodes ≡ ok b'
      → slots (b'.rules) ≡ with_nodes (slots (b.rules)) nodes
  unfolding add_rules with_nodes
  slots-add_rules groups private_inputs b [] b' h = rw (sym (ok_injective h)) refl
  slots-add_rules groups private_inputs b (node ∷ nodes) b' h =
      let p = bind-ok (add_rule groups (get_on_error node private_inputs) b node) _ b' h in
      let rest = slots-add_rules groups private_inputs p.0 nodes b' p.2 in
      let e = slots-add_rule groups (get_on_error node private_inputs) b node p.0 p.1 in
      rest ∙ ap (λ s. with_nodes s nodes) e

  -- The ruleset that is made of the graph below an output node has the slot of the output node for its
  -- output. Its rules fill the slots of the nodes of the graph, in the order of the list with the leaves
  -- first: one rule for each node, none for a reception or an argument; and the arguments are those of
  -- the argument nodes.
  pub slots-new :
      (output_node : AnyNode P) (private_inputs : BTreeSet String) (rules : Ruleset P)
      → new output_node private_inputs ≡ ok rules
      → (tag : FullName) × (output_tag_of output_node ≡ ok tag)
        × (slots rules ≡ with_nodes (no_slots tag) (flattened_leaves_first output_node))
  unfolding new slots nothing_built no_slots
  slots-new output_node private_inputs rules h =
      let p = bind-ok (output_tag_of output_node) _ rules h in
      let g = bind-ok (Groups.new output_node) _ rules p.2 in
      let b =
        bind-ok
          (add_rules g.0 private_inputs (nothing_built p.0) (flattened_leaves_first output_node)) _
          rules g.2 in
      let r =
        slots-add_rules g.0 private_inputs (nothing_built p.0) (flattened_leaves_first output_node)
          b.0 b.1 in
      (p.0, p.1, rw (sym (ok_injective b.2)) r)
