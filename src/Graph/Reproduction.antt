-- ===== src/Graph/Reproduction.antt =====
-- ayatori/src/graph_representation/node_tree.rs: `get_reproduction_subtree`, the graph that evidence of a
-- failed node is verified with.
use ayatori.Prelude.{suc, List, [], ◌∷◌, Option, none, some}
use ayatori.Collections.Order.{Ord}
use ayatori.Collections.BTreeMap.{get}
use ayatori.Entities.Tags.{FullName, ScalarTag, MappingTag, AnyTag, scalar, mapping}
use ayatori.Entities.Errors.{
  Result, ok, err, ◌>>=◌, RuntimeError, UnattributableError, MaybeAttributableError, attributable,
  failed, mapping_not_found, wrong_type,
}
use ayatori.Entities.Params.{SessionParameters}
use ayatori.Entities.Party.{new_group, clone_box}
use ayatori.Entities.Value.{
  Value, verdict_value, collected_values, to_map, EvidenceVerdict, valid, invalid, get_value,
  downcast_verdict,
}
use ayatori.Entities.Function.{
  AssociatedData, UnattributableScalarFunction, UnattributableMappingFunction,
  SenderAttributableMappingFunction,
}
use ayatori.Entities.Function.Simple.{
  SimpleScalarFunction, SimpleMappingFunction, SenderAttributableVerificationFunction,
}
use ayatori.Graph.AnyNode.{
  NodeId, AnyNode, compute_scalar, compute_mapping, ComputeScalarKind, ComputeMappingKind,
  with_reveal, no_args, arg, no_nodes, store_in,
}
use ayatori.Graph.AnyNode.Mutation.{tree_without_dependencies}
use ayatori.Graph.AnyNode.Subtree.{find_subnode}
use ayatori.Graph.Constructors.{collect, data_or_runtime}

unfoldable pub computed_tag : AnyTag → Result RuntimeError FullName
computed_tag (scalar (ScalarTag.computed name)) = ok name
computed_tag _ = err (failed "Expected the root node to have a `ComputedScalar` tag")

module _ {Verifier : Type 0} ⦃o : Ord Verifier⦄ where
  unfoldable pub verdict_of :
      Verifier → List (Verifier × EvidenceVerdict) → Result RuntimeError EvidenceVerdict
  verdict_of guilty_party m = elim (get m guilty_party) [
    | none ↦ err (failed "Guilty party entry not found")
    | some verdict ↦ ok verdict
  ]

module _ {P : SessionParameters} where
  -- The closure `<associated_verification>`.
  unfoldable pub associated_verification :
      SenderAttributableVerificationFunction P → AssociatedData → UnattributableMappingFunction P
  associated_verification verification associated_data id args =
      data_or_runtime
        (verification id args associated_data >>= λ verdict. ok (verdict_value verdict))

  unfoldable pub verdict_on :
      {A : Type 0}
      → Result (MaybeAttributableError A) (Value P)
      → Result UnattributableError (Value P)
  verdict_on (ok value) = ok (verdict_value (invalid "The target function finished successfully"))
  verdict_on (err (attributable e)) = ok (verdict_value valid)
  verdict_on (err (MaybeAttributableError.runtime e)) = err (UnattributableError.runtime e)

  -- The closure `<node_itself_as_verification>`.
  unfoldable pub node_itself_as_verification :
      SenderAttributableMappingFunction P → UnattributableMappingFunction P
  node_itself_as_verification function id args = verdict_on (function id args)

  -- The node whose value is the verdict, at the address `i`.
  unfoldable pub verification_node :
      NodeId → Option AssociatedData → AnyNode P → Result RuntimeError (AnyNode P)
  verification_node i (some associated_data)
        (compute_mapping j tag args (with_reveal function verification verification_args) nodes) =
      ok (
        compute_mapping i tag verification_args
          (ComputeMappingKind.simple (
            SimpleMappingFunction.unattributable
              (associated_verification verification associated_data)))
          no_nodes)
  verification_node i none
        (compute_mapping j tag args
          (ComputeMappingKind.simple (SimpleMappingFunction.sender_attributable function))
          nodes) =
      ok (
        compute_mapping i tag args
          (ComputeMappingKind.simple
            (SimpleMappingFunction.unattributable (node_itself_as_verification function)))
          no_nodes)
  verification_node i associated_data node = err (failed "Unexpected node type")

  -- `args.get_map`: every value of the map is downcast.
  unfoldable pub downcast_map :
      List (P.Verifier × Value P) → Result RuntimeError (List (P.Verifier × EvidenceVerdict))
  downcast_map [] = ok []
  downcast_map ((id, value) ∷ m) =
      downcast_verdict value >>= λ verdict. downcast_map m >>= λ rest. ok ((id, verdict) ∷ rest)

  unfoldable pub verdict_map : Value P → Result RuntimeError (List (P.Verifier × EvidenceVerdict))
  verdict_map (collected_values m) = downcast_map (to_map m)
  verdict_map _ = err wrong_type

  unfoldable pub found_node : MappingTag → Option (AnyNode P) → Result RuntimeError (AnyNode P)
  found_node tag none = err (mapping_not_found tag)
  found_node tag (some node) = ok node

module _ {P : SessionParameters} ⦃o : Ord P.Verifier⦄ where
  -- The closure `<evidence_verification_output>`.
  unfoldable pub evidence_verification_output : P.Verifier → UnattributableScalarFunction P
  evidence_verification_output guilty_party args = data_or_runtime (
      get_value args "value" >>= λ value. verdict_map value >>= λ m.
      verdict_of guilty_party m >>= λ verdict. ok (verdict_value verdict))

  unfoldable pub wrapped : P.Verifier → FullName → NodeId → AnyNode P → AnyNode P
  wrapped guilty_party tag i collected =
      compute_scalar i tag
        (ComputeScalarKind.simple
          (SimpleScalarFunction.unattributable (evidence_verification_output guilty_party)))
        (arg "value" collected no_args) no_nodes

  unfoldable pub get_reproduction_subtree :
      NodeId
      → AnyNode P
      → MappingTag
      → P.Verifier
      → Option AssociatedData
      → Result RuntimeError (AnyNode P × NodeId)
  get_reproduction_subtree i root tag guilty_party associated_data = do
    node ← found_node tag (find_subnode root (mapping tag))
    verification ← verification_node i associated_data node
    bare ← tree_without_dependencies (suc i) verification
    collected ← collect (bare.1) (bare.0) (clone_box (new_group (guilty_party ∷ [])))
    output_tag ← computed_tag (store_in root)
    ok (wrapped guilty_party output_tag (suc (bare.1)) collected, suc (suc (bare.1)))
