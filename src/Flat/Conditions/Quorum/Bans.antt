-- ===== src/Flat/Conditions/Quorum/Bans.antt =====
-- Which parties a quorum condition of ayatori/src/flat_representation/conditions.rs counts.
use ayatori.Prelude.{
  ◌≡◌, refl, Bool, true, false, List, [], ◌∷◌, if◌then◌else◌, ite, arith, leb, length, ap, ◌∙◌, sym,
  ◌++◌, Bool-cases, inl, inr,
}
use ayatori.Collections.Order.{Ord}
use ayatori.Collections.BTreeSet.{
  BTreeSet, contains, intersection, IsDistinct, contains-insert, contains-remove,
}
use ayatori.Collections.BTreeSet.Counting.{
  Avoids, contains-intersection, intersection-IsDistinct, remove-IsDistinct, insert-IsDistinct,
  length-le_of_Includes,
}
use ayatori.Entities.Tags.{MappingTag, MappingTag_discrete}
use ayatori.Entities.Party.{ThresholdGroup, has_quorum, is_quorum_possible, clone_box}
use ayatori.Entities.Party.Quorums.{possible_of_quorum}
use ayatori.Flat.Conditions.Quorum.{
  QuorumCondition, QuorumConditionWithState, new, is_satisfiable, is_satisfied, available_ids,
  update_with_banned_party, update_with_element_ready,
}

-- What happens to a condition.
pub data Event (PartyId : Type 0) : Type 0 where
  element : MappingTag → PartyId → Event PartyId
  ban : PartyId → Event PartyId

module _ {PartyId : Type 0} ⦃o : Ord PartyId⦄ where
  -- The condition after a history, the latest event first.
  unfoldable pub run :
      QuorumCondition PartyId → List (Event PartyId) → QuorumConditionWithState PartyId
  run condition [] = new condition
  run condition (element tag id ∷ es) = update_with_element_ready (run condition es) tag id
  run condition (ban id ∷ es) = update_with_banned_party (run condition es) id

  -- The party reported the element, and was not banned since.
  pub counts : List (Event PartyId) → MappingTag → PartyId → Bool
  counts [] tag id = false
  counts (element t j ∷ es) tag id =
      ite (MappingTag_discrete tag t) (ite (o.dec id j) true (counts es tag id)) (counts es tag id)
  counts (ban j ∷ es) tag id = ite (o.dec id j) false (counts es tag id)

  unfoldable pub banned : List (Event PartyId) → PartyId → Bool
  banned [] id = false
  banned (element t j ∷ es) id = banned es id
  banned (ban j ∷ es) id = ite (o.dec id j) true (banned es id)

  -- No party reports anything after it was banned.
  abbrev pub BansAreKept : List (Event PartyId) → Type 0
  BansAreKept [] = Unit
  BansAreKept (element t j ∷ es) = (banned es j ≡ false) × BansAreKept es
  BansAreKept (ban j ∷ es) = BansAreKept es

  pub members : (PartyId → Bool) → BTreeSet PartyId → BTreeSet PartyId
  members test [] = []
  members test (x ∷ s) = if test x then x ∷ members test s else members test s

  contains-members :
      (test : PartyId → Bool) (s : BTreeSet PartyId) (a : PartyId)
      → contains (members test s) a ≡ (if test a then contains s a else false)
  unfolding contains members
  contains-members test [] a = ground arith
  contains-members test (x ∷ s) a = elim (o.dec a x) [
    | yes p ↦ ground (arith, ap test p, contains-members test s a)
    | no p ↦ ground (arith, contains-members test s a)
  ]

  original_condition-run :
      (condition : QuorumCondition PartyId) (es : List (Event PartyId))
      → (run condition es).original_condition ≡ condition
  unfolding run new update_with_element_ready update_with_banned_party
  original_condition-run condition [] = refl
  original_condition-run condition (element t j ∷ es) =
      ground (arith, original_condition-run condition es)
  original_condition-run condition (ban j ∷ es) = original_condition-run condition es

  got-run :
      (condition : QuorumCondition PartyId) (es : List (Event PartyId)) (id : PartyId)
      → contains (run condition es).got_ids id ≡ counts es condition.tag id
  unfolding run new update_with_element_ready update_with_banned_party counts contains
  got-run condition [] id = refl
  got-run condition (element t j ∷ es) id = ground (
    arith,
    original_condition-run condition es,
    got-run condition es id,
    contains-insert (run condition es).got_ids j id,
  )
  got-run condition (ban j ∷ es) id =
      ground (arith, got-run condition es id, contains-remove (run condition es).got_ids j id)

  got-IsDistinct :
      (condition : QuorumCondition PartyId) (es : List (Event PartyId))
      → IsDistinct (run condition es).got_ids
  unfolding run new update_with_element_ready update_with_banned_party
  got-IsDistinct condition [] = tt
  got-IsDistinct condition (element t j ∷ es) = ground (
    arith,
    got-IsDistinct condition es,
    insert-IsDistinct (run condition es).got_ids j (got-IsDistinct condition es),
  )
  got-IsDistinct condition (ban j ∷ es) =
      remove-IsDistinct (run condition es).got_ids j (got-IsDistinct condition es)

  banned-run :
      (condition : QuorumCondition PartyId) (es : List (Event PartyId)) (id : PartyId)
      → contains (run condition es).banned_ids id ≡ banned es id
  unfolding run new update_with_element_ready update_with_banned_party banned contains
  banned-run condition [] id = refl
  banned-run condition (element t j ∷ es) id = ground (arith, banned-run condition es id)
  banned-run condition (ban j ∷ es) id =
      ground (arith, banned-run condition es id, contains-insert (run condition es).banned_ids j id)

  -- A party that was banned, and whose element is reported after that, is handed on among the parties
  -- that the collection takes values from, while it is still on the list of the banned ones.
  pub banned_party_is_counted_again :
      (condition : QuorumCondition PartyId) (es : List (Event PartyId)) (id : PartyId)
      → (contains (available_ids (run condition (element condition.tag id ∷ ban id ∷ es))) id
          ≡ true)
        × (contains (run condition (element condition.tag id ∷ ban id ∷ es)).banned_ids id ≡ true)
  unfolding available_ids counts banned
  banned_party_is_counted_again condition es id =
      let all : List (Event PartyId) = element condition.tag id ∷ ban id ∷ es in
      (ground (arith, got-run condition all id), ground (arith, banned-run condition all id))

  counted_not_banned :
      (es : List (Event PartyId)) (tag : MappingTag) (id : PartyId)
      → BansAreKept es
      → counts es tag id ≡ true
      → banned es id ≡ false
  unfolding counts banned
  counted_not_banned [] tag id k h = refl
  counted_not_banned (element t j ∷ es) tag id k h = elim (o.dec id j) [
    | yes p ↦ ap (banned es) p ∙ k.0
    | no p ↦ ground (arith, counted_not_banned es tag id k.1)
  ]
  counted_not_banned (ban j ∷ es) tag id k h = ground (arith, counted_not_banned es tag id k)

  banned-append :
      (later es : List (Event PartyId)) (id : PartyId)
      → banned (later ++ es) id ≡ false
      → banned es id ≡ false
  unfolding banned
  banned-append [] es id h = h
  banned-append (element t j ∷ later) es id h = banned-append later es id h
  banned-append (ban j ∷ later) es id h = ground (arith, banned-append later es id)

  same_length :
      (s t : BTreeSet PartyId)
      → IsDistinct s
      → IsDistinct t
      → ((a : PartyId) → contains s a ≡ contains t a)
      → length s ≡ length t
  same_length s t d e h = omega (
    arith,
    length-le_of_Includes s t d (λ a m. sym (h a) ∙ m),
    length-le_of_Includes t s e (λ a m. h a ∙ m),
  )

  members-IsDistinct :
      (test : PartyId → Bool) (s : BTreeSet PartyId) → IsDistinct s → IsDistinct (members test s)
  unfolding members
  members-IsDistinct test [] d = tt
  members-IsDistinct test (x ∷ s) d =
      ground (arith, members-IsDistinct test s d.1, contains-members test s x)

  module _ (g : ThresholdGroup PartyId) (tag : MappingTag) where
    abbrev pub condition_of : QuorumCondition PartyId
    condition_of = record { tag = tag; group = clone_box g }

    satisfied-run :
        (es : List (Event PartyId))
        → is_satisfied (run condition_of es) ≡ has_quorum g (run condition_of es).got_ids
    unfolding is_satisfied clone_box
    satisfied-run es =
        ap (λ c. c.group.has_quorum (run condition_of es).got_ids)
          (original_condition-run condition_of es)

    satisfiable-run :
        (es : List (Event PartyId))
        → is_satisfiable (run condition_of es)
          ≡ is_quorum_possible g (run condition_of es).banned_ids
    unfolding is_satisfiable clone_box
    satisfiable-run es =
        ap (λ c. c.group.is_quorum_possible (run condition_of es).banned_ids)
          (original_condition-run condition_of es)

    counted_members :
        (es : List (Event PartyId))
        → IsDistinct g.ids
        → length (intersection (run condition_of es).got_ids g.ids)
          ≡ length (members (counts es tag) g.ids)
    counted_members es d =
        same_length (intersection (run condition_of es).got_ids g.ids)
          (members (counts es tag) g.ids)
          (intersection-IsDistinct _ g.ids (got-IsDistinct condition_of es))
          (members-IsDistinct (counts es tag) g.ids d)
          (λ a. ground (
            arith,
            got-run condition_of es a,
            contains-intersection (run condition_of es).got_ids g.ids a,
            contains-members (counts es tag) g.ids a,
          ))

    -- The condition of a threshold group is satisfied, after any history, exactly when at least as
    -- many parties of the group as its threshold have reported the element and were not banned since.
    pub is_satisfied-run :
        (es : List (Event PartyId))
        → IsDistinct g.ids
        → is_satisfied (run condition_of es)
          ≡ leb g.threshold (length (members (counts es tag) g.ids))
    unfolding has_quorum
    is_satisfied-run es d = satisfied-run es ∙ ap (leb g.threshold) (counted_members es d)

    -- A condition of a threshold group that was found to be unsatisfiable is not satisfied at any
    -- later time, as long as no party reports anything after its ban.
    pub unsatisfiable_is_final :
        (es later : List (Event PartyId))
        → BansAreKept (later ++ es)
        → is_satisfiable (run condition_of es) ≡ false
        → is_satisfied (run condition_of (later ++ es)) ≡ false
    unsatisfiable_is_final es later kept h =
        elim (Bool-cases (is_satisfied (run condition_of all))) [
          | inl satisfied ↦ absurd (
              ground (
                arith,
                satisfiable-run es,
                possible_of_quorum g (run condition_of es).banned_ids (run condition_of all).got_ids
                    (got-IsDistinct condition_of all) avoids (sym (satisfied-run all) ∙ satisfied),
              ))
          | inr unsatisfied ↦ unsatisfied
        ]
      where
        all : List (Event PartyId)
        all = later ++ es

        avoids : Avoids (run condition_of all).got_ids (run condition_of es).banned_ids
        avoids a m =
            banned-run condition_of es a
            ∙ banned-append later es a
                (counted_not_banned all tag a kept (sym (got-run condition_of all a) ∙ m))
