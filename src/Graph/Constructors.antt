-- ===== src/Graph/Constructors.antt =====
-- ayatori/src/graph_representation/constructors.rs: the functions that a protocol makes its nodes with,
-- each of which puts its node at a new address. `new_erased` of a function wraps what it returns into a
-- value; here it returns one.
pub mod Messages
pub mod Call
use ayatori.Prelude.{suc, String, List, [], ◌∷◌, Option, none, some}
use ayatori.Collections.Order.{string_ord}
use ayatori.Collections.BTreeSet.{BTreeSet}
use ayatori.Collections.BTreeMap.{BTreeMap, insert}
use ayatori.Entities.Tags.{
  FullName, new_name, ScalarTag, MappingTag, AnyTag, scalar, mapping, to_collected, CollectedTag,
}
use ayatori.Entities.Display.{display_or}
use ayatori.Entities.Errors.{
  Result, ok, err, ◌>>=◌, RuntimeError, UnattributableError, runtime, wrong_type,
}
use ayatori.Entities.Params.{SessionParameters}
use ayatori.Entities.Party.{PartyGroup}
use ayatori.Entities.Value.{Value, Args, get_value}
use ayatori.Entities.Function.{
  UnattributableScalarFunction, UnattributableScalarFunctionWithRng,
  ThirdPartyAttributableScalarFunction, UnattributableMappingFunction,
  UnattributableMappingFunctionWithRng, SenderAttributableMappingFunction,
  SenderAttributableWithRevealMappingFunction, ThirdPartyAttributableMappingFunction,
}
use ayatori.Entities.Function.Simple.{
  SimpleScalarFunction, SimpleMappingFunction, ThirdPartyAttributableVerificationFunction,
  SenderAttributableVerificationFunction,
}
use ayatori.Graph.AnyNode
use ayatori.Graph.AnyNode.{
  NodeId, AnyNode, ComputeScalarKind, ComputeMappingKind, with_reveal, NamedNodes, no_args, arg,
  Nodes, no_nodes, next, store_in,
}
use ayatori.Graph.AnyNode.Views.{scalar_tag, mapping_tag, sent_dm_tag}

unfoldable pub data_or_runtime : {A : Type 0} → Result RuntimeError A → Result UnattributableError A
data_or_runtime (ok value) = ok value
data_or_runtime (err e) = err (UnattributableError.runtime e)

-- The values of a function that returns one of two things, or both.
pub data OneOrBoth (P : SessionParameters) : Type 0 where
  left right : Value P → OneOrBoth P
  both : Value P → Value P → OneOrBoth P

module _ {P : SessionParameters} where
  unfoldable pub named_nodes : BTreeMap String (AnyNode P) → NamedNodes P
  named_nodes [] = no_args
  named_nodes ((name, node) ∷ m) = arg name node (named_nodes m)

  unfoldable pub insert_all :
      BTreeMap String (AnyNode P) → List (String × AnyNode P) → BTreeMap String (AnyNode P)
  insert_all m [] = m
  insert_all m ((name, node) ∷ source) = insert_all (insert m name node) source

  -- Of the arguments of one name the last is kept.
  unfoldable pub args_from : List (String × AnyNode P) → NamedNodes P
  args_from source = named_nodes (insert_all [] source)

  unfoldable pub new_scalar : NodeId → String → ComputeScalarKind P → NamedNodes P → AnyNode P
  new_scalar i name kind args = AnyNode.compute_scalar i (new_name name) kind args no_nodes

  unfoldable pub new_mapping : NodeId → String → ComputeMappingKind P → NamedNodes P → AnyNode P
  new_mapping i name kind args = AnyNode.compute_mapping i (new_name name) args kind no_nodes

  unfoldable pub constant : NodeId → String → Value P → AnyNode P
  constant i name value =
      new_scalar i name
        (ComputeScalarKind.simple (SimpleScalarFunction.unattributable (λ args. ok value))) no_args

  unfoldable pub scalar_alias : NodeId → String → AnyNode P → AnyNode P
  scalar_alias i name node =
      new_scalar i name
        (ComputeScalarKind.simple
          (SimpleScalarFunction.unattributable (λ args. data_or_runtime (get_value args "value"))))
        (arg "value" node no_args)

  unfoldable pub mapping_alias : NodeId → String → AnyNode P → AnyNode P
  mapping_alias i name node =
      new_mapping i name
        (ComputeMappingKind.simple (
          SimpleMappingFunction.unattributable
            (λ id args. data_or_runtime (get_value args "value"))))
        (arg "value" node no_args)

  unfoldable pub compute_scalar :
      NodeId → String → UnattributableScalarFunction P → NamedNodes P → AnyNode P
  compute_scalar i name function args =
      new_scalar i name (ComputeScalarKind.simple (SimpleScalarFunction.unattributable function))
        args

  unfoldable pub compute_scalar_with_rng :
      NodeId → String → UnattributableScalarFunctionWithRng P → NamedNodes P → AnyNode P
  compute_scalar_with_rng i name function args =
      new_scalar i name
        (ComputeScalarKind.simple (SimpleScalarFunction.unattributable_with_rng function)) args

  unfoldable pub compute_scalar_third_party_attributable :
      NodeId
      → String
      → ThirdPartyAttributableScalarFunction P
      → NamedNodes P
      → ThirdPartyAttributableVerificationFunction P
      → AnyNode P
  compute_scalar_third_party_attributable i name function args verification =
      new_scalar i name (ComputeScalarKind.third_party_attributable function verification) args

  -- The closures of the two branches.
  unfoldable pub left_of : OneOrBoth P → Option (Value P)
  left_of (left l) = some l
  left_of (right r) = none
  left_of (both l r) = some l

  unfoldable pub right_of : OneOrBoth P → Option (Value P)
  right_of (left l) = none
  right_of (right r) = some r
  right_of (both l r) = some r

  -- `one_or_both` is the downcast to the type that the forked function returns.
  unfoldable pub fork_branch :
      (Value P → Result RuntimeError (OneOrBoth P))
      → (OneOrBoth P → Option (Value P))
      → NodeId
      → String
      → AnyNode P
      → AnyNode P
  fork_branch one_or_both branch i name fork =
      new_scalar i name
        (ComputeScalarKind.simple (
          SimpleScalarFunction.unattributable_optional
            (λ args. get_value args "fork" >>= λ v. one_or_both v >>= λ w. ok (branch w))))
        (arg "fork" fork no_args)

  unfoldable pub forked :
      (Value P → Result RuntimeError (OneOrBoth P))
      → NodeId
      → String
      → String
      → AnyNode P
      → AnyNode P × AnyNode P
  forked one_or_both i lname rname fork = (
    fork_branch one_or_both left_of (suc i) lname fork,
    fork_branch one_or_both right_of (suc (suc i)) rname fork,
  )

  unfoldable pub compute_forked_scalar :
      (Value P → Result RuntimeError (OneOrBoth P))
      → NodeId
      → String
      → String
      → String
      → UnattributableScalarFunction P
      → NamedNodes P
      → AnyNode P × AnyNode P
  compute_forked_scalar one_or_both i fork_name lname rname function args =
      forked one_or_both i lname rname (compute_scalar i fork_name function args)

  unfoldable pub compute_forked_scalar_with_rng :
      (Value P → Result RuntimeError (OneOrBoth P))
      → NodeId
      → String
      → String
      → String
      → UnattributableScalarFunctionWithRng P
      → NamedNodes P
      → AnyNode P × AnyNode P
  compute_forked_scalar_with_rng one_or_both i fork_name lname rname function args =
      forked one_or_both i lname rname (compute_scalar_with_rng i fork_name function args)

  unfoldable pub compute_mapping :
      NodeId → String → UnattributableMappingFunction P → NamedNodes P → AnyNode P
  compute_mapping i name function args =
      new_mapping i name (ComputeMappingKind.simple (SimpleMappingFunction.unattributable function))
        args

  unfoldable pub compute_mapping_sender_fallible :
      NodeId → String → SenderAttributableMappingFunction P → NamedNodes P → AnyNode P
  compute_mapping_sender_fallible i name function args =
      new_mapping i name
        (ComputeMappingKind.simple (SimpleMappingFunction.sender_attributable function)) args

  unfoldable pub compute_mapping_with_rng :
      NodeId → String → UnattributableMappingFunctionWithRng P → NamedNodes P → AnyNode P
  compute_mapping_with_rng i name function args =
      new_mapping i name
        (ComputeMappingKind.simple (SimpleMappingFunction.unattributable_with_rng function)) args

  unfoldable pub compute_mapping_third_party_fallible :
      NodeId
      → String
      → ThirdPartyAttributableMappingFunction P
      → NamedNodes P
      → ThirdPartyAttributableVerificationFunction P
      → AnyNode P
  compute_mapping_third_party_fallible i name function args verification =
      new_mapping i name (ComputeMappingKind.third_party_attributable function verification) args

  unfoldable pub compute_mapping_sender_fallible_with_reveal :
      NodeId
      → String
      → SenderAttributableWithRevealMappingFunction P
      → NamedNodes P
      → SenderAttributableVerificationFunction P
      → NamedNodes P
      → AnyNode P
  compute_mapping_sender_fallible_with_reveal i name function args verification verification_args =
      new_mapping i name (with_reveal function verification verification_args) args

  unfoldable pub collected_into :
      Option String → NodeId → AnyNode P → PartyGroup P.Verifier → Result RuntimeError (AnyNode P)
  collected_into disambiguator i values group = mapping_tag values >>= λ tag.
      ok (AnyNode.collect i (to_collected tag disambiguator) values group no_nodes)

  -- A mapping node is collected; there is an error only where the argument is outside its type.
  unfoldable pub collect :
      NodeId → AnyNode P → PartyGroup P.Verifier → Result RuntimeError (AnyNode P)
  collect i values group = collected_into none i values group

  unfoldable pub collect_into :
      NodeId → String → AnyNode P → PartyGroup P.Verifier → Result RuntimeError (AnyNode P)
  collect_into i disambiguator values group = collected_into (some disambiguator) i values group

  unfoldable pub send_all :
      NodeId → AnyNode P → BTreeSet P.Verifier → Result RuntimeError (AnyNode P)
  send_all i values destinations =
      sent_dm_tag values >>= λ tag. ok (AnyNode.send_all i tag values destinations)

  unfoldable pub merge_scalars : NodeId → AnyNode P → AnyNode P → Result RuntimeError (AnyNode P)
  merge_scalars i l r = scalar_tag l >>= λ left_tag. scalar_tag r >>= λ right_tag.
      ok (AnyNode.merge_scalars i (new_name (display_or left_tag right_tag)) l r)
