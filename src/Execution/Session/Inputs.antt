-- ===== src/Execution/Session/Inputs.antt =====
-- ayatori/src/execution/session.rs: the start of a session, with the inputs of the protocol stored
-- under the arguments of its graph.
use ayatori.Prelude.{String, [], ◌∷◌, Option, none, some, not, if◌then◌else◌}
use ayatori.Collections.Order.{string_ord}
use ayatori.Collections.BTreeSet.{
  BTreeSet, extend, is_disjoint, is_subset, intersection, difference,
}
use ayatori.Collections.BTreeMap.{BTreeMap, keys, get}
use ayatori.Entities.Tags.{FullName, ScalarTag}
use ayatori.Entities.Errors.{
  Result, ok, err, ◌>>=◌, RuntimeError, intersecting_names, missing_arguments,
}
use ayatori.Entities.Params.{SessionId, SessionParameters}
use ayatori.Entities.Value.{Value}
use ayatori.Flat.Ruleset.{Ruleset}
use ayatori.Execution.Storage
use ayatori.Execution.Session.{Session, add_scalar}

module _ {P : SessionParameters} where
  add_argument : Session P → Option FullName → Value P → Result RuntimeError (Session P)
  add_argument s none value = ok s
  add_argument s (some store_in) value = do
    updated ← add_scalar s (ScalarTag.argument store_in) value
    ok updated.0

  -- Each value that the graph has an argument for; what an addition changes is not looked at.
  pub add_arguments :
      BTreeMap String FullName
      → Session P
      → BTreeMap String (Value P)
      → Result RuntimeError (Session P)
  unfolding add_argument
  add_arguments arguments s [] = ok s
  add_arguments arguments s ((name, value) ∷ values) =
      elim (add_argument s (get arguments name) value) [
        | err e ↦ err e
        | ok s' ↦ add_arguments arguments s' values
      ]

  pub fill_inputs :
      Session P
      → BTreeMap String (Value P)
      → BTreeMap String (Value P)
      → Result RuntimeError (Session P)
  unfolding add_arguments
  fill_inputs s public_values private_values =
      let arguments = s.rules.arguments in
      let given = extend (keys public_values) (keys private_values) in
      if not (is_disjoint (keys public_values) (keys private_values))
      then err (intersecting_names (intersection (keys public_values) (keys private_values)))
      else if not (is_subset (keys arguments) given)
      then err (missing_arguments (difference (keys arguments) given))
      else do
        s' ← add_arguments arguments s public_values
        add_arguments arguments s' private_values

  -- The rest of the construction, once the ruleset was built.
  pub new_inner :
      SessionId
      → Option P.Signer
      → P.Verifier
      → BTreeSet P.Verifier
      → Ruleset P
      → BTreeMap String (Value P)
      → BTreeMap String (Value P)
      → Result RuntimeError (Session P)
  unfolding fill_inputs
  new_inner id signer verifier participants rules public_inputs private_inputs =
      fill_inputs
        (record {
          rules = rules;
          storage = Storage.new;
          signer = signer;
          verifier = verifier;
          session_data = record {
            id = id;
            participants = participants;
            local_participants = verifier ∷ [];
          };
          provable_errors = [];
          attributable_errors = [];
          external_bans = [];
          preprocessing_tasks = [];
        })
        public_inputs private_inputs
