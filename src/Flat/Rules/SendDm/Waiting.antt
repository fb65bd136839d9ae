-- ===== src/Flat/Rules/SendDm/Waiting.antt =====
-- The parties that a rule for direct messages of ayatori/src/flat_representation/rules.rs has yet to fire for.
use ayatori.Prelude.{ℕ, ◌+◌, ◌≤◌, ◌≡◌, refl, arith, taken}
use ayatori.Collections.Order.{Ord}
use ayatori.Entities.Tags.{ScalarTag, MappingTag}
use ayatori.Entities.Params.{SessionParameters}
use ayatori.Flat.Conditions.Element.Waiting
use ayatori.Flat.Rules.SendDm.{
  SendDmRule, pop_element, pop_satisfied, update_with_scalar_ready, update_with_element_ready,
}

module _ {P : SessionParameters} ⦃o : Ord P.Verifier⦄ where
  pub waiting : SendDmRule P → ℕ
  waiting r = Waiting.waiting r.element_condition

  pub waiting-pop_satisfied :
      (r : SendDmRule P) → waiting (pop_satisfied r).0 + taken (pop_satisfied r).1 ≤ waiting r
  unfolding waiting pop_satisfied pop_element taken
  waiting-pop_satisfied r = ground (arith, Waiting.waiting-pop_satisfied r.element_condition)

  pub waiting-update_with_scalar_ready :
      (r : SendDmRule P) (tag : ScalarTag) → waiting (update_with_scalar_ready r tag) ≡ waiting r
  unfolding waiting update_with_scalar_ready
  waiting-update_with_scalar_ready r tag = refl

  pub waiting-update_with_element_ready :
      (r : SendDmRule P) (tag : MappingTag) (id : P.Verifier)
      → waiting (update_with_element_ready r tag id) ≡ waiting r
  unfolding waiting update_with_element_ready
  waiting-update_with_element_ready r tag id =
      Waiting.waiting-update_with_element_ready r.element_condition tag id
