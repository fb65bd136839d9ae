-- ===== src/Flat/Conditions/Scalar/Ready.antt =====
-- When a scalar condition of ayatori/src/flat_representation/conditions.rs is met.
use ayatori.Prelude.{◌≡◌, refl, ◌↔◌, ◌⊎◌, inl, inr, true, List, [], ◌∷◌, none, some, arith, if_pos}
use ayatori.Collections.BTreeSet.{contains, contains-remove}
use ayatori.Entities.Tags.{ScalarTag, scalar_tag_ord, ScalarTag_discrete}
use ayatori.Flat.Conditions.Scalar.{
  Either, ScalarCondition, and, or, is_satisfied, update_with_scalar_ready,
}

-- The condition after the scalars of the list became ready, in its order.
pub after_scalars : ScalarCondition → List ScalarTag → ScalarCondition
after_scalars c [] = c
after_scalars c (tag ∷ tags) = after_scalars (update_with_scalar_ready c tag) tags

-- What the condition asks for: all of its scalars, or one of two.
abbrev pub Holds : ScalarCondition → List ScalarTag → Type 0
Holds (and all_of) ready = (t : ScalarTag) → contains all_of t ≡ true → contains ready t ≡ true
Holds (or none) ready = Unit {0}
Holds (or (some e)) ready = (contains ready e.left ≡ true) ⊎ (contains ready e.right ≡ true)

-- The two decisions that an `Or` makes about a scalar.
either_cases :
    (e : Either) (tag : ScalarTag) (tags : List ScalarTag)
    → ((update_with_scalar_ready (or (some e)) tag ≡ or none)
        × ((contains (tag ∷ tags) e.left ≡ true) ⊎ (contains (tag ∷ tags) e.right ≡ true)))
      ⊎ ((update_with_scalar_ready (or (some e)) tag ≡ or (some e))
          × (contains (tag ∷ tags) e.left ≡ contains tags e.left)
          × (contains (tag ∷ tags) e.right ≡ contains tags e.right))
unfolding update_with_scalar_ready contains
either_cases e tag tags = ground arith

either_step :
    (e : Either) (tag : ScalarTag) (tags : List ScalarTag)
    → Holds (update_with_scalar_ready (or (some e)) tag) tags ↔ Holds (or (some e)) (tag ∷ tags)
either_step e tag tags = elim (either_cases e tag tags) [
  | inl (p, m) ↦ rw p (λ _. m, λ _. tt)
  | inr (p, l, r) ↦ rw (p, l, r) (λ h. h, λ h. h)
]

Holds-step :
    (c : ScalarCondition) (tag : ScalarTag) (tags : List ScalarTag)
    → Holds (update_with_scalar_ready c tag) tags ↔ Holds c (tag ∷ tags)
unfolding contains update_with_scalar_ready
Holds-step (and s) tag tags = (
  λ h t m. ground (arith, h t, contains-remove s tag t),
  λ h t m. ground (arith, h t, contains-remove s tag t),
)
Holds-step (or none) tag tags = (λ h. h, λ h. h)
Holds-step (or (some e)) tag tags = either_step e tag tags

satisfied_iff : (c : ScalarCondition) → (is_satisfied c ≡ true) ↔ Holds c []
unfolding is_satisfied contains
satisfied_iff (and []) = (λ _ t m. m, λ _. refl)
satisfied_iff (and (t ∷ ts)) =
    (λ h. absurd (ground arith), λ h. h t (if_pos (ScalarTag_discrete t t) refl _ _))
satisfied_iff (or none) = (λ _. tt, λ _. refl)
satisfied_iff (or (some e)) = (λ h. absurd (ground arith), λ h. absurd (ground arith))

-- A scalar condition is satisfied, after some scalars became ready, exactly when all the scalars of
-- an `And` are among them, or one of the two of an `Or` is.
pub after_scalars-is_satisfied :
    (c : ScalarCondition) (tags : List ScalarTag)
    → (is_satisfied (after_scalars c tags) ≡ true) ↔ Holds c tags
unfolding after_scalars
after_scalars-is_satisfied c [] = satisfied_iff c
after_scalars-is_satisfied c (tag ∷ tags) =
    let ih = after_scalars-is_satisfied (update_with_scalar_ready c tag) tags in
    let st = Holds-step c tag tags in (λ h. st.0 (ih.0 h), λ h. ih.1 (st.1 h))
