-- ===== src/Flat/Ruleset/Building.antt =====
-- ayatori/src/flat_representation/ruleset.rs: the rules that `Ruleset::new` has made so far.
use ayatori.Prelude.{[], ◌∷◌, ◌++◌, none, some}
use ayatori.Collections.Order.{string_ord}
use ayatori.Collections.BTreeSet.{BTreeSet}
use ayatori.Collections.BTreeMap.{BTreeMap, get}
use ayatori.Entities.Tags.{FullName, full_name_ord}
use ayatori.Entities.Errors.{Result, ok, err, RuntimeError, failed, wrong_type}
use ayatori.Entities.Params.{SessionParameters}
use ayatori.Graph.AnyNode.{AnyNode, compute_scalar}
use ayatori.Flat.Ruleset.{Ruleset}
use ayatori.Flat.Rules.Scalar
use ayatori.Flat.Rules.Collect
use ayatori.Flat.Rules.Mapping
use ayatori.Flat.Rules.SendBc
use ayatori.Flat.Rules.SendDm

-- The rules so far, and the senders of the messages whose `Receive` has been seen.
pub record Building (P : SessionParameters) : Type 0 where
  pub rules : Ruleset P
  pub expected_messages : BTreeMap FullName (BTreeSet P.Verifier)

unfoldable pub nothing_built : {P : SessionParameters} → FullName → Building P
nothing_built output_tag = record {
  rules = record {
    output_tag = output_tag;
    scalar_rules = [];
    collect_rules = [];
    mapping_rules = [];
    send_bc_rules = [];
    send_dm_rules = [];
    arguments = [];
  };
  expected_messages = [];
}

unfoldable pub senders_of :
    {Verifier : Type 0}
    → BTreeMap FullName (BTreeSet Verifier)
    → FullName
    → Result RuntimeError (BTreeSet Verifier)
senders_of expected_messages name = elim (get expected_messages name) [
  | none ↦ err (failed "Expected senders to be available")
  | some senders ↦ ok senders
]

module _ {P : SessionParameters} where
  unfoldable pub with_scalar_rule : Building P → Scalar.ScalarRule P → Building P
  with_scalar_rule b rule = record b {
    rules = record (b.rules) { scalar_rules = b.rules.scalar_rules ++ rule ∷ [] };
  }

  unfoldable pub with_collect_rule : Building P → Collect.CollectRule P → Building P
  with_collect_rule b rule = record b {
    rules = record (b.rules) { collect_rules = b.rules.collect_rules ++ rule ∷ [] };
  }

  unfoldable pub with_mapping_rule : Building P → Mapping.MappingRule P → Building P
  with_mapping_rule b rule = record b {
    rules = record (b.rules) { mapping_rules = b.rules.mapping_rules ++ rule ∷ [] };
  }

  unfoldable pub with_send_bc_rule : Building P → SendBc.SendBcRule P → Building P
  with_send_bc_rule b rule = record b {
    rules = record (b.rules) { send_bc_rules = b.rules.send_bc_rules ++ rule ∷ [] };
  }

  unfoldable pub with_send_dm_rule : Building P → SendDm.SendDmRule P → Building P
  with_send_dm_rule b rule = record b {
    rules = record (b.rules) { send_dm_rules = b.rules.send_dm_rules ++ rule ∷ [] };
  }

  -- The output of a graph is a `ComputeScalar` node.
  unfoldable pub output_tag_of : AnyNode P → Result RuntimeError FullName
  output_tag_of (compute_scalar i tag kind args nodes) = ok tag
  output_tag_of _ = err wrong_type
