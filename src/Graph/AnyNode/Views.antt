-- ===== src/Graph/AnyNode/Views.antt =====
-- ayatori/src/graph_representation/specific_nodes.rs: a node as the rules read it. Where an argument of a
-- node is outside the type of it, which Rust's types leave no room for, there is an error here.
use ayatori.Prelude.{String, List, [], ◌∷◌}
use ayatori.Collections.BTreeMap.{BTreeMap}
use ayatori.Entities.Tags.{FullName, ScalarTag, MappingTag, AnyTag, scalar, mapping}
use ayatori.Entities.Errors.{Result, ok, err, ◌>>=◌, RuntimeError, wrong_type}
use ayatori.Entities.Params.{SessionParameters}
use ayatori.Entities.Function.{ScalarFunction, MappingFunction}
use ayatori.Entities.Function.Simple.{scalar_from_simple, mapping_from_simple}
use ayatori.Graph.AnyNode.{
  AnyNode, serialize_and_sign_bc, serialize_and_sign_dm, send_dm, receive, ComputeScalarKind,
  ComputeMappingKind, with_reveal, NamedNodes, no_args, arg, Nodes, no_nodes, next, store_in,
}
use ayatori.Graph.Nodes

unfoldable pub scalar_part : AnyTag → Result RuntimeError ScalarTag
scalar_part (scalar tag) = ok tag
scalar_part (mapping tag) = err wrong_type

unfoldable pub mapping_part : AnyTag → Result RuntimeError MappingTag
mapping_part (scalar tag) = err wrong_type
mapping_part (mapping tag) = ok tag

module _ {P : SessionParameters} where
  unfoldable pub scalar_tag : AnyNode P → Result RuntimeError ScalarTag
  scalar_tag node = scalar_part (store_in node)

  unfoldable pub mapping_tag : AnyNode P → Result RuntimeError MappingTag
  mapping_tag node = mapping_part (store_in node)

  unfoldable pub scalar_args : NamedNodes P → Result RuntimeError (BTreeMap String ScalarTag)
  scalar_args no_args = ok []
  scalar_args (arg name node args) =
      scalar_tag node >>= λ tag. scalar_args args >>= λ tags. ok ((name, tag) ∷ tags)

  unfoldable pub any_args : NamedNodes P → BTreeMap String AnyTag
  any_args no_args = []
  any_args (arg name node args) = (name, store_in node) ∷ any_args args

  unfoldable pub dependency_tags : Nodes P → Result RuntimeError (List ScalarTag)
  dependency_tags no_nodes = ok []
  dependency_tags (next node nodes) =
      scalar_tag node >>= λ tag. dependency_tags nodes >>= λ tags. ok (tag ∷ tags)

  -- `to_non_simple` of the kinds.
  unfoldable pub scalar_function : ComputeScalarKind P → ScalarFunction P
  scalar_function (ComputeScalarKind.simple function) = scalar_from_simple function
  scalar_function (ComputeScalarKind.third_party_attributable function verification) =
      ScalarFunction.third_party_attributable function

  unfoldable pub mapping_function : ComputeMappingKind P → MappingFunction P
  mapping_function (ComputeMappingKind.simple function) = mapping_from_simple function
  mapping_function (with_reveal function verification args) =
      MappingFunction.sender_attributable_with_reveal function
  mapping_function (ComputeMappingKind.third_party_attributable function verification) =
      MappingFunction.third_party_attributable function

  unfoldable pub mapping_kind : ComputeMappingKind P → Nodes.ComputeMappingKind
  mapping_kind (ComputeMappingKind.simple function) = Nodes.ComputeMappingKind.simple
  mapping_kind (with_reveal function verification args) =
      Nodes.ComputeMappingKind.with_reveal (any_args args)
  mapping_kind (ComputeMappingKind.third_party_attributable function verification) =
      Nodes.ComputeMappingKind.third_party_attributable

  -- The tags of nodes of a single type.
  unfoldable pub signed_bc_tag : AnyNode P → Result RuntimeError FullName
  signed_bc_tag (serialize_and_sign_bc i tag function signs adapter name) = ok tag
  signed_bc_tag _ = err wrong_type

  unfoldable pub signed_dm_tag : AnyNode P → Result RuntimeError FullName
  signed_dm_tag (serialize_and_sign_dm i tag function signs adapter name) = ok tag
  signed_dm_tag _ = err wrong_type

  unfoldable pub sent_dm_tag : AnyNode P → Result RuntimeError FullName
  sent_dm_tag (send_dm i tag sends nodes) = ok tag
  sent_dm_tag _ = err wrong_type

  unfoldable pub receive_tag : AnyNode P → Result RuntimeError FullName
  receive_tag (receive i tag message_name) = ok tag
  receive_tag _ = err wrong_type
