-- ===== src/Graph/Args.antt =====
-- ayatori/src/graph_representation/args.rs: the arguments of a protocol, those that it declares and those
-- that it is called with.
use ayatori.Prelude.{suc, String, [], ◌∷◌, none, some, ite}
use ayatori.Collections.Order.{string_ord}
use ayatori.Collections.BTreeSet.{BTreeSet, insert}
use ayatori.Collections.BTreeMap.{BTreeMap, keys, get}
use ayatori.Collections.BTreeMap
use ayatori.Entities.Tags.{new_name, prefixes_discrete}
use ayatori.Entities.Errors.{Result, ok, err, RuntimeError, failed}
use ayatori.Entities.Params.{SessionParameters}
use ayatori.Entities.Value.{Value}
use ayatori.Graph.AnyNode.{NodeId, AnyNode, scalar_argument}

-- `PrivateInputs` and `PublicInputs`.
abbrev pub Inputs : SessionParameters → Type 0
Inputs P = BTreeMap String (Value P)

abbrev pub ProtocolSignature : Type 0
ProtocolSignature = BTreeSet String

unfoldable pub declare_input : ProtocolSignature → String → ProtocolSignature
declare_input signature name = insert signature name

-- The nodes by the names of the arguments: `ArgNodes`, `ProtocolArgs` and `BoundProtocolArgs`.
abbrev pub NodesByName : SessionParameters → Type 0
NodesByName P = BTreeMap String (AnyNode P)

module _ {P : SessionParameters} where
  unfoldable pub add_input : Inputs P → String → Value P → Inputs P
  add_input inputs name value = BTreeMap.insert inputs name value

  -- `names()` of the private inputs.
  unfoldable pub input_names : Inputs P → BTreeSet String
  input_names inputs = keys inputs

  -- The constructor `scalar_argument`, behind the new pointer `i`.
  unfoldable pub new_argument : NodeId → String → AnyNode P
  new_argument i name = scalar_argument i (new_name name) name

  unfoldable pub arg_nodes : NodeId → ProtocolSignature → NodesByName P × NodeId
  arg_nodes i [] = ([], i)
  arg_nodes i (name ∷ names) =
      let (nodes, next) = arg_nodes (suc i) names in
      (BTreeMap.insert nodes name (new_argument i name), next)

  unfoldable pub get_arg_node : NodesByName P → String → Result RuntimeError (AnyNode P)
  get_arg_node nodes name = elim (get nodes name) [
    | none ↦ err (RuntimeError.argument_not_found name)
    | some node ↦ ok node
  ]

  unfoldable pub add_argument : NodesByName P → String → AnyNode P → NodesByName P
  add_argument args name node = BTreeMap.insert args name node

  unfoldable pub bind : ProtocolSignature → NodesByName P → Result RuntimeError (NodesByName P)
  bind signature args =
      ite (prefixes_discrete signature (keys args)) (ok args)
        (err (failed "Argument mismatch when binding"))

  unfoldable pub get_bound : NodesByName P → String → Result RuntimeError (AnyNode P)
  get_bound args name = elim (get args name) [
    | none ↦ err (failed "Bound argument was not found")
    | some node ↦ ok node
  ]
