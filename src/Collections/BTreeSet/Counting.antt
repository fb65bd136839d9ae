-- ===== src/Collections/BTreeSet/Counting.antt =====
-- Counting the elements of a `BTreeSet`.
use ayatori.Prelude.{
  ◌≤◌, ◌<◌, ◌≡◌, refl, true, false, [], ◌∷◌, if_pos, arith, length, if◌then◌else◌,
}
use ayatori.Collections.Order.{Ord}
use ayatori.Collections.BTreeSet.{
  BTreeSet, contains, place, insert, remove, intersection, difference, IsDistinct, contains-remove,
  contains-place,
}

module _ {A : Type 0} ⦃o : Ord A⦄ where
  -- Every element of the one set is in the other.
  abbrev pub Includes : BTreeSet A → BTreeSet A → Type 0
  Includes s t = (a : A) → contains s a ≡ true → contains t a ≡ true

  -- No element of the one set is in the other.
  abbrev pub Avoids : BTreeSet A → BTreeSet A → Type 0
  Avoids s t = (a : A) → contains s a ≡ true → contains t a ≡ false

  pub contains-intersection :
      (s t : BTreeSet A) (a : A)
      → contains (intersection s t) a ≡ (if contains t a then contains s a else false)
  unfolding contains intersection
  contains-intersection [] t a = ground arith
  contains-intersection (x ∷ s) t a = ground (arith, contains-intersection s t a)

  pub contains-difference :
      (s t : BTreeSet A) (a : A)
      → contains (difference s t) a ≡ (if contains t a then false else contains s a)
  unfolding contains difference
  contains-difference [] t a = ground arith
  contains-difference (x ∷ s) t a = ground (arith, contains-difference s t a)

  pub intersection-IsDistinct : (s t : BTreeSet A) → IsDistinct s → IsDistinct (intersection s t)
  unfolding intersection
  intersection-IsDistinct [] t d = tt
  intersection-IsDistinct (x ∷ s) t d =
      ground (arith, intersection-IsDistinct s t d.1, contains-intersection s t x)

  pub difference-IsDistinct : (s t : BTreeSet A) → IsDistinct s → IsDistinct (difference s t)
  unfolding difference
  difference-IsDistinct [] t d = tt
  difference-IsDistinct (x ∷ s) t d =
      ground (arith, difference-IsDistinct s t d.1, contains-difference s t x)

  pub remove-IsDistinct : (s : BTreeSet A) (a : A) → IsDistinct s → IsDistinct (remove s a)
  unfolding remove
  remove-IsDistinct [] a d = tt
  remove-IsDistinct (x ∷ s) a d = ground (arith, remove-IsDistinct s a d.1, contains-remove s a x)

  place-IsDistinct :
      (a : A) (s : BTreeSet A) → contains s a ≡ false → IsDistinct s → IsDistinct (place a s)
  unfolding place contains
  place-IsDistinct a [] h d = (refl, tt)
  place-IsDistinct a (x ∷ s) h d = ground (arith, place-IsDistinct a s, contains-place a x s)

  pub insert-IsDistinct : (s : BTreeSet A) (a : A) → IsDistinct s → IsDistinct (insert s a)
  unfolding insert
  insert-IsDistinct s a d = ground (arith, place-IsDistinct a s)

  length-remove-le : (s : BTreeSet A) (a : A) → length (remove s a) ≤ length s
  unfolding remove
  length-remove-le [] a = omega arith
  length-remove-le (x ∷ s) a = ground (arith, length-remove-le s a)

  pub length-remove-lt :
      (s : BTreeSet A) (a : A) → contains s a ≡ true → length (remove s a) < length s
  unfolding remove contains
  length-remove-lt [] a h = absurd (ground arith)
  length-remove-lt (x ∷ s) a h = ground (arith, length-remove-lt s a, length-remove-le s a)

  -- A set is not larger than a set that includes it.
  pub length-le_of_Includes : (s t : BTreeSet A) → IsDistinct s → Includes s t → length s ≤ length t
  unfolding contains
  length-le_of_Includes [] t d i = omega arith
  length-le_of_Includes (x ∷ s) t d i = omega (
    arith,
    length-le_of_Includes s (remove t x) d.1
        (λ a h. ground (arith, contains-remove t x a, i a, d.0)),
    length-remove-lt t x (i x (if_pos (o.dec x x) refl _ _)),
  )
