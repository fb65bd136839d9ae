-- ===== src/Flat/Rules/Mapping/Waiting.antt =====
-- The parties that a mapping rule of ayatori/src/flat_representation/rules.rs has yet to fire for.
use ayatori.Prelude.{ℕ, ◌+◌, ◌≤◌, ◌≡◌, refl, arith, taken}
use ayatori.Collections.Order.{Ord}
use ayatori.Entities.Tags.{ScalarTag, MappingTag}
use ayatori.Entities.Params.{SessionParameters}
use ayatori.Flat.Conditions.Element.Waiting
use ayatori.Flat.Rules.Mapping.{
  MappingRule, pop_element, pop_satisfied, update_with_scalar_ready, update_with_element_ready,
}

module _ {P : SessionParameters} ⦃o : Ord P.Verifier⦄ where
  pub waiting : MappingRule P → ℕ
  waiting r = Waiting.waiting r.element_condition

  pub waiting-pop_satisfied :
      (r : MappingRule P) → waiting (pop_satisfied r).0 + taken (pop_satisfied r).1 ≤ waiting r
  unfolding waiting pop_satisfied pop_element taken
  waiting-pop_satisfied r = ground (arith, Waiting.waiting-pop_satisfied r.element_condition)

  pub waiting-update_with_scalar_ready :
      (r : MappingRule P) (tag : ScalarTag) → waiting (update_with_scalar_ready r tag) ≡ waiting r
  unfolding waiting update_with_scalar_ready
  waiting-update_with_scalar_ready r tag = refl

  pub waiting-update_with_element_ready :
      (r : MappingRule P) (tag : MappingTag) (id : P.Verifier)
      → waiting (update_with_element_ready r tag id) ≡ waiting r
  unfolding waiting update_with_element_ready
  waiting-update_with_element_ready r tag id =
      Waiting.waiting-update_with_element_ready r.element_condition tag id
