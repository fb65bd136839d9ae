-- ===== src/Tests/Conditions.antt =====
-- Inputs of the theorems about ayatori/src/flat_representation/conditions.rs.
use ayatori.Prelude.{
  ◌≡◌, ◌↔◌, ℕ, refl, List, [], ◌∷◌, ◌++◌, some, none, true, false, leb, length, ℕ_discrete,
}
use ayatori.Collections.Order.{nat_ord}
use ayatori.Collections.BTreeSet.{BTreeSet, IsDistinct, contains}
use ayatori.Entities.Tags.{ScalarTag, MappingTag, mapping_tag_ord}
use ayatori.Entities.Party.{ThresholdGroup}
use ayatori.Flat.Conditions.Scalar
use ayatori.Flat.Conditions.Scalar.{ScalarCondition, and}
use ayatori.Flat.Conditions.Scalar.Ready.{after_scalars, Holds, after_scalars-is_satisfied}
use ayatori.Flat.Conditions.Element.{ElementCondition}
use ayatori.Flat.Conditions.Element
use ayatori.Flat.Conditions.Element.Firing
use ayatori.Flat.Conditions.Element.Firing.{reported, pop_satisfied_sound, pop_satisfied_complete}
use ayatori.Flat.Conditions.Quorum
use ayatori.Flat.Conditions.Quorum.Bans
use ayatori.Flat.Conditions.Quorum.Bans.{
  counts, banned, BansAreKept, members, condition_of, is_satisfied-run, unsatisfiable_is_final,
  banned_party_is_counted_again,
}
use ayatori.Tests.Data.{name_of}

abbrev left : ScalarTag
left = ScalarTag.computed (name_of "left")

abbrev right : ScalarTag
right = ScalarTag.merged (name_of "right")

after_scalars-is_satisfied_example :
    (Scalar.is_satisfied (after_scalars (and (left ∷ right ∷ [])) (right ∷ left ∷ [])) ≡ true)
    ↔ Holds (and (left ∷ right ∷ [])) (right ∷ left ∷ [])
after_scalars-is_satisfied_example =
    after_scalars-is_satisfied (and (left ∷ right ∷ [])) (right ∷ left ∷ [])

abbrev echo : MappingTag
echo = MappingTag.received (name_of "echo")

abbrev two_of_three : ThresholdGroup ℕ
two_of_three = record { ids = 1 ∷ 2 ∷ 3 ∷ []; threshold = 2 }

distinct : IsDistinct two_of_three.ids
unfolding contains ℕ_discrete
distinct = (refl, (refl, (refl, tt)))

abbrev reports : List (Bans.Event ℕ)
reports = Bans.element echo 3 ∷ Bans.ban 1 ∷ Bans.element echo 2 ∷ Bans.element echo 1 ∷ []

is_satisfied-run_example :
    Quorum.is_satisfied (Bans.run (condition_of two_of_three echo) reports)
    ≡ leb 2 (length (members (counts reports echo) two_of_three.ids))
is_satisfied-run_example = is_satisfied-run two_of_three echo reports distinct

abbrev bans : List (Bans.Event ℕ)
bans = Bans.ban 2 ∷ Bans.ban 1 ∷ []

abbrev later : List (Bans.Event ℕ)
later = Bans.element echo 3 ∷ []

kept : BansAreKept (later ++ bans)
unfolding banned ℕ_discrete
kept = (refl, tt)

lost : Quorum.is_satisfiable (Bans.run (condition_of two_of_three echo) bans) ≡ false
unfolding Quorum.is_satisfiable Bans.run Quorum.update_with_banned_party Quorum.new
    ayatori.Entities.Party.clone_box ayatori.Collections.BTreeSet.difference contains
    ayatori.Collections.BTreeSet.insert ayatori.Collections.BTreeSet.place ℕ_discrete
lost = refl

unsatisfiable_is_final_example :
    Quorum.is_satisfied (Bans.run (condition_of two_of_three echo) (later ++ bans)) ≡ false
unsatisfiable_is_final_example = unsatisfiable_is_final two_of_three echo bans later kept lost

banned_party_is_counted_again_example :
    (contains
        (Quorum.available_ids
          (Bans.run (condition_of two_of_three echo) (Bans.element echo 1 ∷ Bans.ban 1 ∷ bans)))
        1
      ≡ true)
    × (contains
          (Bans.run
            (condition_of two_of_three echo)
            (Bans.element echo 1 ∷ Bans.ban 1 ∷ bans)).banned_ids
          1
        ≡ true)
banned_party_is_counted_again_example =
    banned_party_is_counted_again (condition_of two_of_three echo) bans 1

abbrev two_ids : BTreeSet ℕ
two_ids = 1 ∷ 2 ∷ []

two_ids-IsDistinct : IsDistinct two_ids
unfolding contains ℕ_discrete
two_ids-IsDistinct = (refl, (refl, tt))

member : contains two_ids 1 ≡ true
unfolding contains ℕ_discrete
member = refl

abbrev condition : ElementCondition
condition = echo ∷ []

abbrev events : List (Firing.Event ℕ)
events = Firing.element echo 2 ∷ []

fires : (Element.pop_satisfied (Firing.run condition two_ids events).0).1 ≡ some 2
unfolding Element.pop_satisfied Firing.run Element.find_satisfied Firing.step
    Element.update_with_element_ready ayatori.Collections.BTreeMap.update Element.new ℕ_discrete
    ayatori.Collections.BTreeSet.remove ayatori.Entities.Tags.MappingTag_discrete
fires = refl

pop_satisfied_sound_example :
    (contains two_ids 2 ≡ true)
    × (contains (Firing.run condition two_ids events).1 2 ≡ false)
    × ((tag : MappingTag) → contains condition tag ≡ true → reported events tag 2 ≡ true)
pop_satisfied_sound_example =
    pop_satisfied_sound condition two_ids events 2 two_ids-IsDistinct fires

abbrev no_events : List (Firing.Event ℕ)
no_events = []

waits : (Element.pop_satisfied (Firing.run condition two_ids no_events).0).1 ≡ none
unfolding Element.pop_satisfied Firing.run Element.find_satisfied Element.new
waits = refl

fresh : contains (Firing.run condition two_ids no_events).1 1 ≡ false
unfolding contains Firing.run
fresh = refl

pop_satisfied_complete_example :
    (tag : MappingTag) × (contains condition tag ≡ true) × (reported no_events tag 1 ≡ false)
pop_satisfied_complete_example =
    pop_satisfied_complete condition two_ids no_events 1 waits member fresh
