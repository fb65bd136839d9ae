-- ===== src/Flat/Conditions/Element/Firing.antt =====
-- When the conditions on elements of ayatori/src/flat_representation/conditions.rs fire: for each
-- party once, and as soon as all the elements of that party are there.
use ayatori.Prelude.{
  ◌≡◌, ◌≢◌, refl, Bool, true, false, List, [], ◌∷◌, Option, none, some, if◌then◌else◌, ite, arith,
  inl, inr, Option-cases, sym, ◌∙◌, if_pos,
}
use ayatori.Collections.Order.{Ord}
use ayatori.Collections.BTreeSet.{BTreeSet, contains, remove, IsDistinct, contains-remove}
use ayatori.Collections.BTreeMap
use ayatori.Collections.BTreeMap.{BTreeMap, get-update, get-remove}
use ayatori.Collections.BTreeMap.Keys.{
  HasDistinctKeys, get_of_missing, update-HasDistinctKeys, remove-HasDistinctKeys,
}
use ayatori.Entities.Tags.{MappingTag, MappingTag_discrete, mapping_tag_ord}
use ayatori.Flat.Conditions.Element.{
  ElementCondition, ElementConditionWithState, conditions_for, new, find_satisfied, trigger,
  update_with_element_ready, pop_satisfied,
}

-- What happens to a condition.
pub data Event (PartyId : Type 0) : Type 0 where
  element : MappingTag → PartyId → Event PartyId
  pop : Event PartyId

module _ {PartyId : Type 0} ⦃o : Ord PartyId⦄ where
  unfoldable pub fire : List PartyId → Option PartyId → List PartyId
  fire fired none = fired
  fire fired (some id) = id ∷ fired

  unfoldable pub step :
      Event PartyId
      → ElementConditionWithState PartyId × List PartyId
      → ElementConditionWithState PartyId × List PartyId
  unfolding fire
  step (element tag id) (c, fired) = (update_with_element_ready c tag id, fired)
  step pop (c, fired) = let (c', id) = pop_satisfied c in (c', fire fired id)

  -- The condition after a history, the latest event first, and the parties that it fired for.
  unfoldable pub run :
      ElementCondition
      → BTreeSet PartyId
      → List (Event PartyId)
      → ElementConditionWithState PartyId × List PartyId
  run condition ids [] = (new condition ids, [])
  run condition ids (e ∷ es) = step e (run condition ids es)

  -- Whether the element of this party was reported.
  pub reported : List (Event PartyId) → MappingTag → PartyId → Bool
  reported [] tag id = false
  reported (pop ∷ es) tag id = reported es tag id
  reported (element t j ∷ es) tag id =
      ite (MappingTag_discrete tag t) (ite (o.dec id j) true (reported es tag id))
        (reported es tag id)

  remaining : ElementCondition → List (Event PartyId) → PartyId → ElementCondition
  remaining condition [] id = condition
  remaining condition (pop ∷ es) id = remaining condition es id
  remaining condition (element t j ∷ es) id =
      ite (o.dec id j) (remove (remaining condition es id) t) (remaining condition es id)

  contains-remaining :
      (condition : ElementCondition) (es : List (Event PartyId)) (id : PartyId) (tag : MappingTag)
      → contains (remaining condition es id) tag
        ≡ (if reported es tag id then false else contains condition tag)
  unfolding remaining reported
  contains-remaining condition [] id tag = refl
  contains-remaining condition (pop ∷ es) id tag = contains-remaining condition es id tag
  contains-remaining condition (element t j ∷ es) id tag = ground (
    arith,
    contains-remaining condition es id tag,
    contains-remove (remaining condition es id) t tag,
  )

  get-conditions_for :
      (condition : ElementCondition) (ids : BTreeSet PartyId) (id : PartyId)
      → BTreeMap.get (conditions_for condition ids) id
        ≡ (if contains ids id then some condition else none)
  unfolding conditions_for contains BTreeMap.get
  get-conditions_for condition [] id = refl
  get-conditions_for condition (x ∷ ids) id = ground (arith, get-conditions_for condition ids id)

  -- What is left to wait for, of each party.
  get-run :
      (condition : ElementCondition) (ids : BTreeSet PartyId) (es : List (Event PartyId))
      (id : PartyId)
      → BTreeMap.get (run condition ids es).0.current_conditions id ≡ (
          if contains ids id
          then if contains (run condition ids es).1 id
            then none
            else some (remaining condition es id)
          else none)
  unfolding run step fire remaining new update_with_element_ready pop_satisfied contains
  get-run condition ids [] id = get-conditions_for condition ids id
  get-run condition ids (element t j ∷ es) id =
      let c = (run condition ids es).0 in
      ground (
        arith,
        get-run condition ids es id,
        get-update c.current_conditions j id (λ tags. remove tags t),
      )
  get-run condition ids (pop ∷ es) id =
      let c = (run condition ids es).0 in
      elim (Option-cases (find_satisfied c.current_conditions)) [
        | inl e ↦ rw (e, trigger) (get-run condition ids es id)
        | inr (j, e) ↦
            rw (e, trigger)
              (ground (arith, get-run condition ids es id, get-remove c.current_conditions j id))
      ]

  find-get :
      (m : BTreeMap PartyId ElementCondition) (id : PartyId)
      → HasDistinctKeys m
      → find_satisfied m ≡ some id
      → BTreeMap.get m id ≡ some []
  unfolding find_satisfied BTreeMap.get
  find-get [] id d h = absurd (ground arith)
  find-get ((j, []) ∷ m) id d h = ground arith
  find-get ((j, t ∷ ts) ∷ m) id d h = ground (arith, find-get m id d.1, get_of_missing m j d.0)

  find-none :
      (m : BTreeMap PartyId ElementCondition) (id : PartyId)
      → find_satisfied m ≡ none
      → BTreeMap.get m id ≢ some []
  unfolding find_satisfied BTreeMap.get
  find-none [] id h = ground arith
  find-none ((j, []) ∷ m) id h = ground arith
  find-none ((j, t ∷ ts) ∷ m) id h = ground (arith, find-none m id)

  keys_missing :
      (condition : ElementCondition) (ids : BTreeSet PartyId) (id : PartyId)
      → contains ids id ≡ false
      → BTreeMap.contains_key (conditions_for condition ids) id ≡ false
  unfolding conditions_for contains BTreeMap.contains_key
  keys_missing condition [] id h = refl
  keys_missing condition (x ∷ ids) id h = ground (arith, keys_missing condition ids id)

  conditions_for-HasDistinctKeys :
      (condition : ElementCondition) (ids : BTreeSet PartyId)
      → IsDistinct ids
      → HasDistinctKeys (conditions_for condition ids)
  unfolding conditions_for
  conditions_for-HasDistinctKeys condition [] d = tt
  conditions_for-HasDistinctKeys condition (x ∷ ids) d =
      (keys_missing condition ids x d.0, conditions_for-HasDistinctKeys condition ids d.1)

  run-HasDistinctKeys :
      (condition : ElementCondition) (ids : BTreeSet PartyId) (es : List (Event PartyId))
      → IsDistinct ids
      → HasDistinctKeys (run condition ids es).0.current_conditions
  unfolding run step new update_with_element_ready pop_satisfied
  run-HasDistinctKeys condition ids [] d = conditions_for-HasDistinctKeys condition ids d
  run-HasDistinctKeys condition ids (element t j ∷ es) d =
      update-HasDistinctKeys _ j (λ tags. remove tags t) (run-HasDistinctKeys condition ids es d)
  run-HasDistinctKeys condition ids (pop ∷ es) d =
      let c = (run condition ids es).0 in
      let ih = run-HasDistinctKeys condition ids es d in
      elim (Option-cases (find_satisfied c.current_conditions)) [
        | inl e ↦ rw (e, trigger) ih
        | inr (j, e) ↦ rw (e, trigger) (remove-HasDistinctKeys c.current_conditions j ih)
      ]

  pop-find :
      (c : ElementConditionWithState PartyId)
      → (pop_satisfied c).1 ≡ find_satisfied c.current_conditions
  unfolding pop_satisfied
  pop-find c = elim (Option-cases (find_satisfied c.current_conditions)) [
    | inl e ↦ rw (e, trigger)
    | inr (j, e) ↦ rw (e, trigger)
  ]

  head_waits :
      (condition s : ElementCondition) (es : List (Event PartyId)) (id : PartyId)
      → remaining condition es id ≡ s
      → s ≢ []
      → (tag : MappingTag) × (contains condition tag ≡ true) × (reported es tag id ≡ false)
  unfolding contains
  head_waits condition [] es id e h = absurd (h refl)
  head_waits condition (t ∷ ts) es id e h =
      let here : contains (remaining condition es id) t ≡ true =
        rw e (if_pos (MappingTag_discrete t t) refl _ _) in
      (
        t,
        ground (arith, contains-remaining condition es id t),
        ground (arith, contains-remaining condition es id t),
      )

  -- A condition on elements fires for a party only if it is one of its parties, it has not fired for
  -- it before, and all the elements of that party were reported.
  pub pop_satisfied_sound :
      (condition : ElementCondition) (ids : BTreeSet PartyId) (es : List (Event PartyId))
      (id : PartyId)
      → IsDistinct ids
      → (pop_satisfied (run condition ids es).0).1 ≡ some id
      → (contains ids id ≡ true)
        × (contains (run condition ids es).1 id ≡ false)
        × ((tag : MappingTag) → contains condition tag ≡ true → reported es tag id ≡ true)
  unfolding contains
  pop_satisfied_sound condition ids es id d h =
      let c = (run condition ids es).0 in
      let g =
        find-get c.current_conditions id (run-HasDistinctKeys condition ids es d)
          (sym (pop-find c) ∙ h) in
      let r = get-run condition ids es id in
      (ground arith, ground arith, λ tag m. ground (arith, contains-remaining condition es id tag))

  -- A condition on elements that fires for none of its parties still waits, for each of them that it
  -- has not fired for, for an element that was not reported.
  pub pop_satisfied_complete :
      (condition : ElementCondition) (ids : BTreeSet PartyId) (es : List (Event PartyId))
      (id : PartyId)
      → (pop_satisfied (run condition ids es).0).1 ≡ none
      → contains ids id ≡ true
      → contains (run condition ids es).1 id ≡ false
      → (tag : MappingTag) × (contains condition tag ≡ true) × (reported es tag id ≡ false)
  pop_satisfied_complete condition ids es id h member fresh =
      let c = (run condition ids es).0 in
      head_waits condition (remaining condition es id) es id refl (λ e.
        find-none c.current_conditions id (sym (pop-find c) ∙ h)
          (ground (arith, get-run condition ids es id)))
