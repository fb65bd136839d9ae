-- ===== src/Flat/Conditions/Element/Waiting.antt =====
-- The parties that a condition of ayatori/src/flat_representation/conditions.rs has yet to fire for.
use ayatori.Prelude.{
  ℕ, suc, ◌+◌, ◌≤◌, ◌≡◌, refl, [], ◌∷◌, some, arith, length, Option-cases, inl, inr, taken,
}
use ayatori.Collections.Order.{Ord}
use ayatori.Collections.BTreeMap
use ayatori.Collections.BTreeMap.{BTreeMap}
use ayatori.Entities.Tags.{MappingTag, mapping_tag_ord}
use ayatori.Flat.Conditions.Element.{
  ElementCondition, ElementConditionWithState, find_satisfied, trigger, pop_satisfied,
  update_with_element_ready,
}

module _ {PartyId : Type 0} ⦃o : Ord PartyId⦄ where
  length-update :
      (m : BTreeMap PartyId ElementCondition) (id : PartyId)
      (f : ElementCondition → ElementCondition)
      → length (BTreeMap.update m id f) ≡ length m
  unfolding BTreeMap.update
  length-update [] id f = refl
  length-update ((j, c) ∷ m) id f = ground (arith, length-update m id f)

  length-remove_le :
      (m : BTreeMap PartyId ElementCondition) (id : PartyId)
      → length (BTreeMap.remove m id) ≤ length m
  unfolding BTreeMap.remove
  length-remove_le [] id = omega arith
  length-remove_le ((j, c) ∷ m) id = ground (arith, length-remove_le m id)

  length-remove_found :
      (m : BTreeMap PartyId ElementCondition) (id : PartyId)
      → find_satisfied m ≡ some id
      → suc (length (BTreeMap.remove m id)) ≤ length m
  unfolding BTreeMap.remove find_satisfied
  length-remove_found [] id h = absurd (ground arith)
  length-remove_found ((j, []) ∷ m) id h = ground (arith, length-remove_le m id)
  length-remove_found ((j, t ∷ ts) ∷ m) id h =
      ground (arith, length-remove_le m id, length-remove_found m id)

  -- The parties that a condition has yet to fire for.
  pub waiting : ElementConditionWithState PartyId → ℕ
  waiting c = length c.current_conditions

  pub waiting-pop_satisfied :
      (c : ElementConditionWithState PartyId)
      → waiting (pop_satisfied c).0 + taken (pop_satisfied c).1 ≤ waiting c
  unfolding waiting pop_satisfied taken
  waiting-pop_satisfied c = elim (Option-cases (find_satisfied c.current_conditions)) [
    | inl e ↦ rw (e, trigger) (omega arith)
    | inr (id, e) ↦ rw (e, trigger) (omega (arith, length-remove_found c.current_conditions id e))
  ]

  pub waiting-update_with_element_ready :
      (c : ElementConditionWithState PartyId) (tag : MappingTag) (id : PartyId)
      → waiting (update_with_element_ready c tag id) ≡ waiting c
  unfolding waiting update_with_element_ready
  waiting-update_with_element_ready c tag id = length-update c.current_conditions id _
