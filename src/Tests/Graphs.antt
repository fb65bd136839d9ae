-- ===== src/Tests/Graphs.antt =====
-- A small graph of ayatori/src/graph_representation, which collects the messages of two parties, and inputs of
-- the theorems about graphs.
use ayatori.Prelude.{
  ℕ, zero, suc, String, ◌≡◌, ◌⊎◌, ◌↔◌, inl, inr, refl, sym, ap, ◌∙◌, true, List, [], ◌∷◌, ◌++◌,
  some, none, arith, All, Bool, false, map,
}
use ayatori.Collections.Order.{nat_ord, string_ord}
use ayatori.Collections.BTreeSet.{BTreeSet, contains}
use ayatori.Entities.Tags.{FullName, full_name_ord, MappingTag, to_collected, mapping}
use ayatori.Collections.BTreeMap.{get_or}
use ayatori.Entities.Errors.{ok}
use ayatori.Entities.Party.{new_group, clone_box}
use ayatori.Entities.Value.{SerdeAdapter, user_value}
use ayatori.Entities.Function.Simple.{SimpleScalarFunction}
use ayatori.Graph.Traversal.{Reach, here, below, IsMember}
use ayatori.Graph.Traversal.Reached.{HasDistinctIds, ReturnsReached, All-IsMember}
use ayatori.Graph.Traversal.LeavesFirst.{IsLeavesFirst}
use ayatori.Graph.AnyNode.{
  AnyNode, NodeId, receive, scalar_argument, deserialize_and_check, collect, compute_scalar,
  ComputeScalarKind, no_args, arg, no_nodes, node_id, store_in, all_args, dependencies,
  all_args_and_dependencies,
}
use ayatori.Graph.AnyNode.Replace.{Replacements, with_replacements}
use ayatori.Graph.AnyNode.Replace.Typing.{IsWellTyped, with_replacements-substitute}
use ayatori.Graph.AnyNode.Unions.Variants.{variant}
use ayatori.Graph.AnyNode.Tree.{flattened_leaves_first}
use ayatori.Graph.AnyNode.Tree.Order.{flattened_leaves_first-IsLeavesFirst}
use ayatori.Graph.AnyNode.Mutation.{tree_with_added_prefix, tree_without_dependencies}
use ayatori.Graph.AnyNode.Mutation.Infallible.{IsWellTypedTree, mutated_tree_infallible}
use ayatori.Graph.AnyNode.Subtree.{reproducibility, available, not_available}
use ayatori.Graph.AnyNode.Subtree.Blocking.{HasDistinctArgs, IsBlocking}
use ayatori.Graph.AnyNode.Subtree.Reproduced.{IsReproduced, reproducibility-cases}
use ayatori.Flat.Ruleset.{Ruleset}
use ayatori.Flat.Ruleset.Groups
use ayatori.Flat.Ruleset.Groups.{PropagatedGroups}
use ayatori.Flat.Ruleset.Groups.Graphs.{new_knows_mappings}
use ayatori.Flat.Ruleset.Build.{new}
use ayatori.Flat.Ruleset.Building.{output_tag_of}
use ayatori.Flat.Ruleset.Build.Slots.{slots, with_nodes, no_slots}
use ayatori.Flat.Ruleset.Build.Refinement.{slots-new}
use ayatori.Flat.Ruleset.Build.Total.{HasItsMessages}
use ayatori.Flat.Ruleset.Build.Graphs.{new-total}
use ayatori.Tests.Data.{params, name_of}

abbrev text : SerdeAdapter params
text = record { serialize = λ value. ok []; deserialize = λ bytes. ok (user_value 5) }

abbrev incoming : AnyNode params
incoming = receive 0 (name_of "echo") (name_of "echo")

abbrev pub checked : AnyNode params
checked =
    deserialize_and_check 1 (name_of "echo") (λ args. ok (user_value 5)) incoming text
      (name_of "echo")

abbrev pub both_parties : BTreeSet ℕ
both_parties = 2 ∷ 3 ∷ []

abbrev collected_at : NodeId → AnyNode params
collected_at i =
    collect i (to_collected (MappingTag.received (name_of "echo")) none) checked
      (clone_box (new_group both_parties)) no_nodes

abbrev pub output_at : NodeId → AnyNode params → AnyNode params
output_at i values =
    compute_scalar i (name_of "output")
      (ComputeScalarKind.simple (SimpleScalarFunction.unattributable (λ args. ok (user_value 6))))
      (arg "values" values no_args) no_nodes

abbrev pub output : AnyNode params
output = output_at 3 (collected_at 2)

abbrev all_nodes : List (AnyNode params)
all_nodes = incoming ∷ checked ∷ collected_at 2 ∷ output ∷ []

node_at : NodeId → AnyNode params
node_at zero = incoming
node_at (suc zero) = checked
node_at (suc (suc zero)) = collected_at 2
node_at _ = output

children_in : All (λ n. All (λ c. IsMember c all_nodes) (all_args_and_dependencies n)) all_nodes
unfolding all_args_and_dependencies ayatori.Graph.AnyNode.all_args
    ayatori.Graph.AnyNode.dependencies ayatori.Graph.AnyNode.arg_values
    ayatori.Graph.AnyNode.node_list
children_in = (tt, ((inl refl, tt), ((inr (inl refl), tt), ((inr (inr (inl refl)), tt), tt))))

in_graph : (n : AnyNode params) → Reach all_args_and_dependencies output n → IsMember n all_nodes
in_graph _ here = inr (inr (inr (inl refl)))
in_graph n (below {m = m} r k) =
    All-IsMember (λ c. IsMember c all_nodes) (all_args_and_dependencies m) n
      (All-IsMember (λ j. All (λ c. IsMember c all_nodes) (all_args_and_dependencies j)) all_nodes m
        children_in (in_graph m r))
      k

found_at : All (λ n. n ≡ node_at (node_id n)) all_nodes
unfolding node_at node_id
found_at = (refl, (refl, (refl, (refl, tt))))

distinct : HasDistinctIds node_id all_args_and_dependencies output
distinct m n r s e =
    All-IsMember (λ k. k ≡ node_at (node_id k)) all_nodes m found_at (in_graph m r)
    ∙ ap node_at e
    ∙ sym (All-IsMember (λ k. k ≡ node_at (node_id k)) all_nodes n found_at (in_graph n s))

All-typed : All IsWellTyped all_nodes
unfolding IsWellTyped ayatori.Graph.AnyNode.arg_values ayatori.Graph.AnyNode.node_list
    ayatori.Graph.AnyNode.Unions.is_reception ayatori.Graph.AnyNode.Unions.is_collect_arg
    ayatori.Graph.AnyNode.Unions.is_compute_scalar_arg
All-typed = (tt, (refl, ((refl, tt), (((refl, tt), tt), tt))))

typed : IsWellTypedTree output
typed n r = All-IsMember IsWellTyped all_nodes n All-typed (in_graph n r)

All-named : All HasItsMessages all_nodes
unfolding HasItsMessages ayatori.Flat.Ruleset.Build.Total.message_received
All-named = (tt, (refl, (tt, (tt, tt))))

named : (n : AnyNode params) → Reach all_args_and_dependencies output n → HasItsMessages n
named n r = All-IsMember HasItsMessages all_nodes n All-named (in_graph n r)

is_output : ayatori.Graph.AnyNode.Unions.is_output_node output ≡ true
unfolding ayatori.Graph.AnyNode.Unions.is_output_node
is_output = refl

new-total_example : (rules : Ruleset params) × (new output [] ≡ ok rules)
new-total_example = new-total output distinct is_output typed named []

rules_made : (rules : Ruleset params) × (new output [] ≡ ok rules)
rules_made = new-total output distinct is_output typed named []

slots-new_example :
    (tag : FullName) × (output_tag_of output ≡ ok tag)
    × (slots rules_made.0 ≡ with_nodes (no_slots tag) (flattened_leaves_first output))
slots-new_example = slots-new output [] rules_made.0 rules_made.1

stored_as : store_in checked ≡ mapping (MappingTag.received (name_of "echo"))
unfolding store_in
stored_as = refl

new_knows_mappings_example :
    (groups : PropagatedGroups ℕ) × (Groups.new output ≡ ok groups)
    × (ids : BTreeSet ℕ) × (Groups.get groups (MappingTag.received (name_of "echo")) ≡ ok ids)
unfolding all_args_and_dependencies ayatori.Graph.AnyNode.all_args
    ayatori.Graph.AnyNode.dependencies ayatori.Graph.AnyNode.arg_values
    ayatori.Graph.AnyNode.node_list
new_knows_mappings_example =
    new_knows_mappings output distinct is_output typed checked
      (MappingTag.received (name_of "echo")) (below (below here (inl refl)) (inl refl)) stored_as

mutated_tree_infallible_example :
    ((r : AnyNode params × NodeId) × (tree_with_added_prefix "inner" 4 output ≡ ok r)
      × (variant r.0 ≡ variant output))
    × ((r : AnyNode params × NodeId) × (tree_without_dependencies 4 output ≡ ok r)
        × (variant r.0 ≡ variant output))
mutated_tree_infallible_example = mutated_tree_infallible output distinct typed 4 "inner"

flattened_leaves_first-IsLeavesFirst_example :
    IsLeavesFirst node_id all_args_and_dependencies [] (flattened_leaves_first output)
    × ReturnsReached node_id all_args_and_dependencies output (flattened_leaves_first output)
flattened_leaves_first-IsLeavesFirst_example = flattened_leaves_first-IsLeavesFirst output distinct

args_in : All (λ n. All (λ c. IsMember c all_nodes) (all_args n)) all_nodes
unfolding all_args ayatori.Graph.AnyNode.arg_values
args_in = (tt, ((inl refl, tt), ((inr (inl refl), tt), ((inr (inr (inl refl)), tt), tt))))

in_args : (n : AnyNode params) → Reach all_args checked n → IsMember n all_nodes
in_args _ here = inr (inl refl)
in_args n (below {m = m} r k) =
    All-IsMember (λ c. IsMember c all_nodes) (all_args m) n
      (All-IsMember (λ j. All (λ c. IsMember c all_nodes) (all_args j)) all_nodes m args_in
        (in_args m r))
      k

distinct_args : HasDistinctArgs checked
distinct_args m n r s e =
    All-IsMember (λ k. k ≡ node_at (node_id k)) all_nodes m found_at (in_args m r)
    ∙ ap node_at e
    ∙ sym (All-IsMember (λ k. k ≡ node_at (node_id k)) all_nodes n found_at (in_args n s))

reproducibility-cases_example :
    ((n : AnyNode params) × IsReproduced checked n
      × IsBlocking n
      × (reproducibility checked ≡ not_available))
    ⊎ ((arguments : BTreeSet String) × (messages : BTreeSet FullName) × (reproducibility checked
          ≡ available arguments messages)
        × ¬ ((n : AnyNode params) × IsReproduced checked n × IsBlocking n)
        × ((name : String)
            → (contains arguments name ≡ true) ↔ (
                (i : NodeId) × (tag : FullName) × IsReproduced checked
                  (scalar_argument i tag name)))
        × ((name : FullName)
            → (contains messages name ≡ true)
              ↔ ((i : NodeId) × (tag : FullName) × IsReproduced checked (receive i tag name))))
reproducibility-cases_example = reproducibility-cases checked distinct_args

-- The collected values are those of another node, under the address of the first.
abbrev others : Replacements params
others = (2, collected_at 5) ∷ []

replaced_in : with_replacements 6 output others ≡ ok (output_at 6 (collected_at 5))
unfolding with_replacements ayatori.Graph.AnyNode.Replace.replace_in_btreemap
    ayatori.Graph.AnyNode.Replace.replace_in_slice ayatori.Graph.AnyNode.Replace.replace_in_node
    ayatori.Graph.AnyNode.Replace.replaced ayatori.Collections.BTreeMap.get
    ayatori.Prelude.ℕ_discrete node_id ayatori.Graph.AnyNode.Unions.is_compute_scalar_arg
replaced_in = refl

output_typed : IsWellTyped output
output_typed = typed output here

with_replacements-substitute_example :
    (node_id (output_at 6 (collected_at 5)) ≡ 6)
    × (store_in (output_at 6 (collected_at 5)) ≡ store_in output)
    × (all_args (output_at 6 (collected_at 5))
        ≡ map (λ child. get_or others (node_id child) child) (all_args output))
    × (dependencies (output_at 6 (collected_at 5))
        ≡ map (λ child. get_or others (node_id child) child) (dependencies output))
    × IsWellTyped (output_at 6 (collected_at 5))
with_replacements-substitute_example =
    with_replacements-substitute 6 output others (output_at 6 (collected_at 5)) output_typed
      replaced_in
