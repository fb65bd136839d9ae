-- ===== src/Flat/Ruleset/Pending.antt =====
-- How many actions a ruleset of ayatori/src/flat_representation/ruleset.rs can still give.
use ayatori.Prelude.{
  ℕ, ◌+◌, ◌≤◌, ◌≡◌, Bool, List, [], ◌∷◌, Option, none, some, arith, length, taken, total, total-map,
  length-map,
}
use ayatori.Collections.Order.{Ord}
use ayatori.Entities.Tags.{ScalarTag, MappingTag}
use ayatori.Entities.Params.{SessionParameters}
use ayatori.Flat.Actions.{Action}
use ayatori.Flat.Rules.Scalar
use ayatori.Flat.Rules.Collect
use ayatori.Flat.Rules.Mapping
use ayatori.Flat.Rules.Mapping.Waiting
use ayatori.Flat.Rules.SendBc
use ayatori.Flat.Rules.SendDm
use ayatori.Flat.Rules.SendDm.Waiting as DmWaiting
use ayatori.Flat.Ruleset.{
  Ruleset, extract_first, pop_first, pop_scalar_action, pop_collect_action, pop_mapping_action,
  pop_bc_send_action, pop_dm_send_action, or_else, pop_action, update_with_scalar_ready,
  update_with_element_ready, update_with_banned_party,
}

length-extract_first :
    {A : Type 0} (test : A → Bool) (xs : List A)
    → length (extract_first test xs).0 + taken (extract_first test xs).1 ≤ length xs
unfolding extract_first taken
length-extract_first test [] = omega arith
length-extract_first test (x ∷ xs) = ground (arith, length-extract_first test xs)

total-pop_first :
    {A B : Type 0} (f : A → ℕ) (pop : A → A × Option B) (xs : List A)
    → ((x : A) → f (pop x).0 + taken (pop x).1 ≤ f x)
    → total f (pop_first pop xs).0 + taken (pop_first pop xs).1 ≤ total f xs
unfolding total pop_first taken
total-pop_first f pop [] h = omega arith
total-pop_first f pop (x ∷ xs) h = ground (arith, h x, total-pop_first f pop xs h)

module _ {P : SessionParameters} ⦃o : Ord P.Verifier⦄ where
  -- The rules that fire once, and the parties that the other rules have yet to fire for.
  unfoldable pub pending : Ruleset P → ℕ
  pending r =
      length r.scalar_rules
      + length r.collect_rules
      + total Waiting.waiting r.mapping_rules
      + length r.send_bc_rules
      + total DmWaiting.waiting r.send_dm_rules

  pending-pop_scalar_action :
      (r : Ruleset P) → pending (pop_scalar_action r).0 + taken (pop_scalar_action r).1 ≤ pending r
  unfolding pending pop_scalar_action taken
  pending-pop_scalar_action r =
      ground (arith, length-extract_first Scalar.is_satisfied r.scalar_rules)

  pending-pop_collect_action :
      (r : Ruleset P)
      → pending (pop_collect_action r).0 + taken (pop_collect_action r).1 ≤ pending r
  unfolding pending pop_collect_action taken
  pending-pop_collect_action r =
      ground (arith, length-extract_first Collect.is_satisfied r.collect_rules)

  pending-pop_bc_send_action :
      (r : Ruleset P)
      → pending (pop_bc_send_action r).0 + taken (pop_bc_send_action r).1 ≤ pending r
  unfolding pending pop_bc_send_action taken
  pending-pop_bc_send_action r =
      ground (arith, length-extract_first SendBc.is_satisfied r.send_bc_rules)

  pending-pop_mapping_action :
      (r : Ruleset P)
      → pending (pop_mapping_action r).0 + taken (pop_mapping_action r).1 ≤ pending r
  unfolding pending pop_mapping_action taken
  pending-pop_mapping_action r = ground (
    arith,
    total-pop_first Waiting.waiting Mapping.pop_satisfied r.mapping_rules
        Waiting.waiting-pop_satisfied,
  )

  pending-pop_dm_send_action :
      (r : Ruleset P)
      → pending (pop_dm_send_action r).0 + taken (pop_dm_send_action r).1 ≤ pending r
  unfolding pending pop_dm_send_action taken
  pending-pop_dm_send_action r = ground (
    arith,
    total-pop_first DmWaiting.waiting SendDm.pop_satisfied r.send_dm_rules
        DmWaiting.waiting-pop_satisfied,
  )

  pending-or_else :
      (n : ℕ) (popped : Ruleset P × Option (Action P))
      (attempt : Ruleset P → Ruleset P × Option (Action P))
      → pending popped.0 + taken popped.1 ≤ n
      → ((r : Ruleset P) → pending (attempt r).0 + taken (attempt r).1 ≤ pending r)
      → pending (or_else popped attempt).0 + taken (or_else popped attempt).1 ≤ n
  unfolding or_else taken
  pending-or_else n (r, none) attempt h pays = omega (arith, h, pays r)
  pending-or_else n (r, some action) attempt h pays = h

  -- Every action that is popped uses up one of the pending actions, and an attempt that pops nothing
  -- adds none.
  pub pending-pop_action :
      (r : Ruleset P) → pending (pop_action r).0 + taken (pop_action r).1 ≤ pending r
  unfolding pop_action
  pending-pop_action r =
      pending-or_else _ _ pop_dm_send_action
        (pending-or_else _ _ pop_bc_send_action
          (pending-or_else _ _ pop_mapping_action
            (pending-or_else _ _ pop_collect_action (pending-pop_scalar_action r)
              pending-pop_collect_action)
            pending-pop_mapping_action)
          pending-pop_bc_send_action)
        pending-pop_dm_send_action

  pub pending-update_with_scalar_ready :
      (r : Ruleset P) (tag : ScalarTag) → pending (update_with_scalar_ready r tag).0 ≡ pending r
  unfolding pending update_with_scalar_ready
  pending-update_with_scalar_ready r tag = ground (
    arith,
    length-map (λ rule. Scalar.update_with_scalar_ready rule tag) r.scalar_rules,
    length-map (λ rule. Collect.update_with_scalar_ready rule tag) r.collect_rules,
    total-map Waiting.waiting (λ rule. Mapping.update_with_scalar_ready rule tag) r.mapping_rules
        (λ rule. Waiting.waiting-update_with_scalar_ready rule tag),
    length-map (λ rule. SendBc.update_with_scalar_ready rule tag) r.send_bc_rules,
    total-map DmWaiting.waiting (λ rule. SendDm.update_with_scalar_ready rule tag) r.send_dm_rules
        (λ rule. DmWaiting.waiting-update_with_scalar_ready rule tag),
  )

  pub pending-update_with_element_ready :
      (r : Ruleset P) (tag : MappingTag) (id : P.Verifier)
      → pending (update_with_element_ready r tag id) ≡ pending r
  unfolding pending update_with_element_ready
  pending-update_with_element_ready r tag id = ground (
    arith,
    length-map (λ rule. Collect.update_with_element_ready rule tag id) r.collect_rules,
    total-map Waiting.waiting (λ rule. Mapping.update_with_element_ready rule tag id)
        r.mapping_rules (λ rule. Waiting.waiting-update_with_element_ready rule tag id),
    total-map DmWaiting.waiting (λ rule. SendDm.update_with_element_ready rule tag id)
        r.send_dm_rules (λ rule. DmWaiting.waiting-update_with_element_ready rule tag id),
  )

  pub pending-update_with_banned_party :
      (r : Ruleset P) (id : P.Verifier) → pending (update_with_banned_party r id).0 ≡ pending r
  unfolding pending update_with_banned_party
  pending-update_with_banned_party r id =
      ground (arith, length-map (λ rule. Collect.update_with_banned_party rule id) r.collect_rules)

-- What a session does to its ruleset.
pub data Event (P : SessionParameters) : Type 0 where
  scalar_ready : ScalarTag → Event P
  element_ready : MappingTag → P.Verifier → Event P
  banned : P.Verifier → Event P
  pop : Event P

module _ {P : SessionParameters} ⦃o : Ord P.Verifier⦄ where
  -- The ruleset after some events, and the number of actions that were popped.
  pub run : Ruleset P → List (Event P) → Ruleset P × ℕ
  run r [] = (r, 0)
  run r (scalar_ready tag ∷ events) = run (update_with_scalar_ready r tag).0 events
  run r (element_ready tag id ∷ events) = run (update_with_element_ready r tag id) events
  run r (banned id ∷ events) = run (update_with_banned_party r id).0 events
  run r (pop ∷ events) =
      let (r', action) = pop_action r in
      let (final, actions) = run r' events in (final, taken action + actions)

  -- Whatever values become ready, whatever parties are banned and however often the ruleset is asked
  -- for an action, the number of actions that it gives and of those still pending in the end is at
  -- most the number that was pending at the start.
  pub actions_are_bounded :
      (r : Ruleset P) (events : List (Event P))
      → pending (run r events).0 + (run r events).1 ≤ pending r
  unfolding run
  actions_are_bounded r [] = omega arith
  actions_are_bounded r (scalar_ready tag ∷ events) = omega (
    arith,
    actions_are_bounded (update_with_scalar_ready r tag).0 events,
    pending-update_with_scalar_ready r tag,
  )
  actions_are_bounded r (element_ready tag id ∷ events) = omega (
    arith,
    actions_are_bounded (update_with_element_ready r tag id) events,
    pending-update_with_element_ready r tag id,
  )
  actions_are_bounded r (banned id ∷ events) = omega (
    arith,
    actions_are_bounded (update_with_banned_party r id).0 events,
    pending-update_with_banned_party r id,
  )
  actions_are_bounded r (pop ∷ events) =
      omega (arith, actions_are_bounded (pop_action r).0 events, pending-pop_action r)
