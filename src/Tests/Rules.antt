-- ===== src/Tests/Rules.antt =====
-- Inputs of the theorems about ayatori/src/flat_representation/ruleset.rs.
use ayatori.Prelude.{◌≡◌, ◌+◌, ◌≤◌, refl, List, [], ◌∷◌, none}
use ayatori.Collections.Order.{nat_ord}
use ayatori.Entities.Tags.{MappingTag}
use ayatori.Flat.Conditions.Scalar.{and}
use ayatori.Flat.Conditions.Element
use ayatori.Flat.Rules.SendDm.{SendDmRule}
use ayatori.Flat.Ruleset.{Ruleset, pop_action}
use ayatori.Flat.Ruleset.Pending.{Event, element_ready, pop, pending, run, actions_are_bounded}
use ayatori.Flat.Ruleset.Progress.{IsIdle, pop_action-IsIdle}
use ayatori.Tests.Data.{params, name_of, no_rules}

-- A rule that sends a message to each of two parties.
abbrev send_rule : SendDmRule params
send_rule = record {
  dependencies_condition = and [];
  element_condition = record {
    original_condition = MappingTag.local_signed (name_of "echo") ∷ [];
    current_conditions =
        (2, MappingTag.local_signed (name_of "echo") ∷ [])
        ∷ (3, MappingTag.local_signed (name_of "echo") ∷ [])
        ∷ [];
    triggered_for = [];
  };
  store_in = name_of "sent echo";
  to_send = name_of "echo";
}

abbrev sends : Ruleset params
sends = record no_rules { send_dm_rules = send_rule ∷ [] }

abbrev events : List (Event params)
events = element_ready (MappingTag.local_signed (name_of "echo")) 3 ∷ pop ∷ pop ∷ []

actions_are_bounded_example : pending (run sends events).0 + (run sends events).1 ≤ pending sends
actions_are_bounded_example = actions_are_bounded sends events

nothing_popped : (pop_action sends).1 ≡ none
unfolding pop_action ayatori.Flat.Ruleset.pop_scalar_action ayatori.Flat.Ruleset.extract_first
    ayatori.Flat.Ruleset.pop_collect_action ayatori.Flat.Ruleset.pop_mapping_action
    ayatori.Flat.Ruleset.pop_first ayatori.Flat.Ruleset.pop_bc_send_action
    ayatori.Flat.Ruleset.pop_dm_send_action ayatori.Flat.Rules.SendDm.pop_satisfied
    ayatori.Flat.Conditions.Scalar.is_satisfied Element.pop_satisfied Element.find_satisfied
nothing_popped = refl

pop_action-IsIdle_example : IsIdle sends
pop_action-IsIdle_example = pop_action-IsIdle sends nothing_popped
