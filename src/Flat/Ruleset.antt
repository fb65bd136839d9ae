-- ===== src/Flat/Ruleset.antt =====
-- ayatori/src/flat_representation/ruleset.rs: the rules of a session, updated with every value that
-- is stored and every party that is banned, and popped one action at a time.
pub mod Pending
pub mod Progress
pub mod Changes
pub mod Groups
pub mod Build
pub mod Building
use ayatori.Prelude.{Bool, List, [], ◌∷◌, Option, none, some, if◌then◌else◌, ite, map, String}
use ayatori.Collections.Order.{Ord}
use ayatori.Collections.BTreeMap.{BTreeMap}
use ayatori.Entities.Tags.{FullName, FullName_discrete, ScalarTag, MappingTag}
use ayatori.Entities.Params.{SessionParameters}
use ayatori.Flat.Actions.{Action, collect, send_bc, send_dm}
use ayatori.Flat.Rules.Scalar.{ScalarRule}
use ayatori.Flat.Rules.Collect.{CollectRule}
use ayatori.Flat.Rules.Mapping.{MappingRule}
use ayatori.Flat.Rules.SendBc.{SendBcRule}
use ayatori.Flat.Rules.SendDm.{SendDmRule}
use ayatori.Flat.Rules.Scalar
use ayatori.Flat.Rules.Collect
use ayatori.Flat.Rules.Mapping
use ayatori.Flat.Rules.SendBc
use ayatori.Flat.Rules.SendDm

pub data RulesetStateChange : Type 0 where
  not_changed reached_output : RulesetStateChange
  impossible_to_collect : List ScalarTag → RulesetStateChange

pub record Ruleset (P : SessionParameters) : Type 0 where
  pub output_tag : FullName
  pub scalar_rules : List (ScalarRule P)
  pub collect_rules : List (CollectRule P)
  pub mapping_rules : List (MappingRule P)
  pub send_bc_rules : List (SendBcRule P)
  pub send_dm_rules : List (SendDmRule P)
  pub arguments : BTreeMap String FullName

-- `extract_if(.., test).next()`: the first element that passes is taken out.
unfoldable pub extract_first : {A : Type 0} → (A → Bool) → List A → List A × Option A
extract_first test [] = ([], none)
extract_first test (x ∷ xs) =
    let (rest, found) = extract_first test xs in if test x then (xs, some x) else (x ∷ rest, found)

-- The loops of `pop_mapping_action` and `pop_dm_send_action`: the first rule that has a party to fire
-- for is left updated, with the party.
unfoldable pub pop_first : {A B : Type 0} → (A → A × Option B) → List A → List A × Option (A × B)
pop_first pop [] = ([], none)
pop_first pop (x ∷ xs) =
    let (rest, found) = pop_first pop xs in
    let (x', id) = pop x in elim id [ none ↦ (x' ∷ rest, found) | some b ↦ (x' ∷ xs, some (x', b)) ]

changed_by_collects : List ScalarTag → RulesetStateChange
changed_by_collects [] = not_changed
changed_by_collects (t ∷ ts) = impossible_to_collect (t ∷ ts)

reached : FullName → ScalarTag → RulesetStateChange
reached output_tag (ScalarTag.computed name) =
    ite (FullName_discrete name output_tag) reached_output not_changed
reached output_tag _ = not_changed

module _ {P : SessionParameters} where
  -- The collects among the rules that have lost their quorum for good.
  pub impossible_collects : List (CollectRule P) → List ScalarTag
  impossible_collects [] = []
  impossible_collects (r ∷ rs) =
      if Collect.is_satisfiable r
      then impossible_collects rs
      else r.store_in ∷ impossible_collects rs

  pub update_with_scalar_ready : Ruleset P → ScalarTag → Ruleset P × RulesetStateChange
  unfolding reached
  update_with_scalar_ready r tag = (
    record r {
      scalar_rules = map (λ rule. Scalar.update_with_scalar_ready rule tag) r.scalar_rules;
      collect_rules = map (λ rule. Collect.update_with_scalar_ready rule tag) r.collect_rules;
      mapping_rules = map (λ rule. Mapping.update_with_scalar_ready rule tag) r.mapping_rules;
      send_bc_rules = map (λ rule. SendBc.update_with_scalar_ready rule tag) r.send_bc_rules;
      send_dm_rules = map (λ rule. SendDm.update_with_scalar_ready rule tag) r.send_dm_rules;
    },
    reached r.output_tag tag,
  )

  unfoldable pub pop_scalar_action : Ruleset P → Ruleset P × Option (Action P)
  pop_scalar_action r =
      let (rest, found) = extract_first Scalar.is_satisfied r.scalar_rules in
      elim found [
        | none ↦ (r, none)
        | some rule ↦ (record r { scalar_rules = rest }, some (Scalar.into_action rule))
      ]

  unfoldable pub pop_collect_action : Ruleset P → Ruleset P × Option (Action P)
  pop_collect_action r =
      let (rest, found) = extract_first Collect.is_satisfied r.collect_rules in
      elim found [
        | none ↦ (r, none)
        | some rule ↦ (record r { collect_rules = rest }, some (collect (Collect.into_action rule)))
      ]

  unfoldable pub pop_bc_send_action : Ruleset P → Ruleset P × Option (Action P)
  pop_bc_send_action r =
      let (rest, found) = extract_first SendBc.is_satisfied r.send_bc_rules in
      elim found [
        | none ↦ (r, none)
        | some rule ↦ (record r { send_bc_rules = rest }, some (send_bc (SendBc.into_action rule)))
      ]

module _ {P : SessionParameters} ⦃o : Ord P.Verifier⦄ where
  pub update_with_banned_party : Ruleset P → P.Verifier → Ruleset P × RulesetStateChange
  unfolding changed_by_collects
  update_with_banned_party r id =
      let rules = map (λ rule. Collect.update_with_banned_party rule id) r.collect_rules in
      (record r { collect_rules = rules }, changed_by_collects (impossible_collects rules))

  unfoldable pub update_with_element_ready : Ruleset P → MappingTag → P.Verifier → Ruleset P
  update_with_element_ready r tag id = record r {
    collect_rules = map (λ rule. Collect.update_with_element_ready rule tag id) r.collect_rules;
    mapping_rules = map (λ rule. Mapping.update_with_element_ready rule tag id) r.mapping_rules;
    send_dm_rules = map (λ rule. SendDm.update_with_element_ready rule tag id) r.send_dm_rules;
  }

  unfoldable pub pop_dm_send_action : Ruleset P → Ruleset P × Option (Action P)
  pop_dm_send_action r =
      let (rest, found) = pop_first SendDm.pop_satisfied r.send_dm_rules in
      elim found [
        | none ↦ (r, none)
        | some (rule, id) ↦
            (record r { send_dm_rules = rest }, some (send_dm (SendDm.make_action rule id)))
      ]

  unfoldable pub pop_mapping_action : Ruleset P → Ruleset P × Option (Action P)
  pop_mapping_action r =
      let (rest, found) = pop_first Mapping.pop_satisfied r.mapping_rules in
      elim found [
        | none ↦ (r, none)
        | some (rule, id) ↦ (record r { mapping_rules = rest }, some (Mapping.make_action rule id))
      ]

  -- `or_else`: the next attempt is made where this one finds nothing.
  unfoldable pub or_else :
      Ruleset P × Option (Action P)
      → (Ruleset P → Ruleset P × Option (Action P))
      → Ruleset P × Option (Action P)
  or_else (r, none) attempt = attempt r
  or_else (r, some action) attempt = (r, some action)

  unfoldable pub pop_action : Ruleset P → Ruleset P × Option (Action P)
  unfolding or_else
  pop_action r =
      or_else
        (or_else (or_else (or_else (pop_scalar_action r) pop_collect_action) pop_mapping_action)
          pop_bc_send_action)
        pop_dm_send_action
