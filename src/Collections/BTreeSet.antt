-- ===== src/Collections/BTreeSet.antt =====
-- `alloc::collections::BTreeSet`: its elements in order, none of them twice.
pub mod Counting
use ayatori.Prelude.{◌≡◌, refl, Bool, true, false, List, [], ◌∷◌, ite, arith, if◌then◌else◌}
use ayatori.Collections.Order.{Ord}

abbrev pub BTreeSet : Type 0 → Type 0
BTreeSet A = List A

module _ {A : Type 0} ⦃o : Ord A⦄ where
  unfoldable pub contains : BTreeSet A → A → Bool
  contains [] a = false
  contains (x ∷ s) a = ite (o.dec a x) true (contains s a)

  -- The place of a new element.
  unfoldable pub place : A → BTreeSet A → BTreeSet A
  place a [] = a ∷ []
  place a (x ∷ s) = if o.less a x then a ∷ x ∷ s else x ∷ place a s

  unfoldable pub insert : BTreeSet A → A → BTreeSet A
  insert s a = if contains s a then s else place a s

  unfoldable pub remove : BTreeSet A → A → BTreeSet A
  remove [] a = []
  remove (x ∷ s) a = ite (o.dec a x) (remove s a) (x ∷ remove s a)

  -- `collect`, `from` and `extend`.
  unfoldable pub extend : BTreeSet A → List A → BTreeSet A
  extend s [] = s
  extend s (a ∷ xs) = extend (insert s a) xs

  unfoldable pub intersection : BTreeSet A → BTreeSet A → BTreeSet A
  intersection [] t = []
  intersection (x ∷ s) t = if contains t x then x ∷ intersection s t else intersection s t

  unfoldable pub difference : BTreeSet A → BTreeSet A → BTreeSet A
  difference [] t = []
  difference (x ∷ s) t = if contains t x then difference s t else x ∷ difference s t

  unfoldable pub is_disjoint : BTreeSet A → BTreeSet A → Bool
  is_disjoint [] t = true
  is_disjoint (x ∷ s) t = if contains t x then false else is_disjoint s t

  unfoldable pub is_subset : BTreeSet A → BTreeSet A → Bool
  is_subset [] t = true
  is_subset (x ∷ s) t = if contains t x then is_subset s t else false

  -- No element stands twice.
  abbrev pub IsDistinct : BTreeSet A → Type 0
  IsDistinct [] = Unit
  IsDistinct (x ∷ s) = (contains s x ≡ false) × IsDistinct s

  contains-place :
      (a b : A) (s : BTreeSet A) → contains (place a s) b ≡ ite (o.dec b a) true (contains s b)
  unfolding contains place
  contains-place a b [] = refl
  contains-place a b (x ∷ s) = ground (arith, contains-place a b s)

  pub contains-insert :
      (s : BTreeSet A) (a b : A) → contains (insert s a) b ≡ ite (o.dec b a) true (contains s b)
  unfolding insert
  contains-insert s a b = ground (arith, contains-place a b s)

  pub contains-remove :
      (s : BTreeSet A) (a b : A) → contains (remove s a) b ≡ ite (o.dec b a) false (contains s b)
  unfolding contains remove
  contains-remove [] a b = ground arith
  contains-remove (x ∷ s) a b = ground (arith, contains-remove s a b)
