-- ===== src/Rbc/MerkleTree/Leaves.antt =====
-- The leaves of the tree in ayatori-rbc/src/merkle_tree.rs: where the items are placed, and how the
-- list of leaves grows to a power of two.
use ayatori.Prelude.{
  ℕ, zero, suc, ◌+◌, ◌^◌, ◌≤◌, ◌<◌, List, [], ◌∷◌, ◌++◌, some, length, get_elem?, ◌≡◌, ◌≢◌, refl,
  ap, inl, inr, arith, Bool-cases, leb, All,
}
use ayatori.Entities.Params.{Bytes}
use ayatori.Rbc.MerkleTree.{
  MerkleNode, power_from, resize, set, from_value, padding, place, place_all,
}
use ayatori.Rbc.MerkleTree.Levels.{power_ap}

pub power_from_lem :
    (fuel k n : ℕ) → n ≤ 2 ^ (k + fuel) → (j : ℕ) × (power_from fuel k n ≡ 2 ^ j) × (n ≤ 2 ^ j)
unfolding power_from
power_from_lem zero k n h = (k, refl, omega (arith, h, power_ap (k + 0) k (omega arith)))
power_from_lem (suc fuel) k n h =
    let rest =
      power_from_lem fuel (suc k) n
        (omega (arith, h, power_ap (k + suc fuel) (suc k + fuel) (omega arith))) in
    elim (Bool-cases (leb n (2 ^ k))) [
      | inl e ↦ (k, rw e refl, ground arith)
      | inr e ↦ (rest.0, rw e rest.1, rest.2)
    ]

pub length-resize : {A : Type 0} (xs : List A) (n : ℕ) (a : A) → length (resize xs n a) ≡ n
unfolding resize
length-resize [] zero a = refl
length-resize [] (suc n) a = ap suc (length-resize [] n a)
length-resize (x ∷ xs) zero a = refl
length-resize (x ∷ xs) (suc n) a = ap suc (length-resize xs n a)

pub get_elem?-resize :
    {A : Type 0} (xs : List A) (n i : ℕ) (a b : A)
    → i < n
    → get_elem? xs i ≡ some b
    → get_elem? (resize xs n a) i ≡ some b
unfolding resize
get_elem?-resize [] n i a b h e = ground arith
get_elem?-resize (x ∷ xs) zero i a b h e = ground arith
get_elem?-resize (x ∷ xs) (suc n) zero a b h e = e
get_elem?-resize (x ∷ xs) (suc n) (suc i) a b h e = get_elem?-resize xs n i a b (omega (arith, h)) e

pub get_elem?_below :
    {A : Type 0} (xs : List A) (i : ℕ) (a : A) → get_elem? xs i ≡ some a → i < length xs
get_elem?_below [] i a e = ground arith
get_elem?_below (x ∷ xs) zero a e = omega arith
get_elem?_below (x ∷ xs) (suc i) a e = omega (arith, get_elem?_below xs i a e)

get_elem?-set :
    {A : Type 0} (xs : List A) (i : ℕ) (a : A) → i < length xs → get_elem? (set xs i a) i ≡ some a
unfolding set
get_elem?-set [] i a h = ground arith
get_elem?-set (x ∷ xs) zero a h = refl
get_elem?-set (x ∷ xs) (suc i) a h = get_elem?-set xs i a (omega (arith, h))

get_elem?-set_other :
    {A : Type 0} (xs : List A) (i j : ℕ) (a : A) → i ≢ j → get_elem? (set xs j a) i ≡ get_elem? xs i
unfolding set
get_elem?-set_other [] i j a h = refl
get_elem?-set_other (x ∷ xs) zero zero a h = ground (arith, h refl)
get_elem?-set_other (x ∷ xs) zero (suc j) a h = refl
get_elem?-set_other (x ∷ xs) (suc i) zero a h = refl
get_elem?-set_other (x ∷ xs) (suc i) (suc j) a h = get_elem?-set_other xs i j a (λ e. h (ap suc e))

module _ (digest : Bytes → Bytes) {T : Type 0} (hash : T → Bytes) where
  get_elem?-place :
      (nodes : List MerkleNode) (idx : ℕ) (item : T)
      → get_elem? (place digest hash nodes idx item) idx ≡ some (from_value digest hash item)
  unfolding place
  get_elem?-place nodes idx item = elim (Bool-cases (leb (length nodes) idx)) [
    | inl e ↦ rw e (
        get_elem?-set (resize nodes (idx + 1) (padding digest)) idx (from_value digest hash item)
          (omega (arith, length-resize nodes (idx + 1) (padding digest))))
    | inr e ↦ rw e (get_elem?-set nodes idx (from_value digest hash item) (ground arith))
  ]

  get_elem?-place_other :
      (nodes : List MerkleNode) (idx i : ℕ) (item : T) (a : MerkleNode)
      → i ≢ idx
      → get_elem? nodes i ≡ some a
      → get_elem? (place digest hash nodes idx item) i ≡ some a
  unfolding place
  get_elem?-place_other nodes idx i item a n h = elim (Bool-cases (leb (length nodes) idx)) [
    | inl e ↦
        rw
          (
            e,
            get_elem?-set_other (resize nodes (idx + 1) (padding digest)) i idx
                (from_value digest hash item) n,
          )
          (get_elem?-resize nodes (idx + 1) i (padding digest) a
            (ground (arith, get_elem?_below nodes i a h)) h)
    | inr e ↦ rw (e, get_elem?-set_other nodes i idx (from_value digest hash item) n) h
  ]

  get_elem?-place_all :
      (nodes : List MerkleNode) (items : List (ℕ × T)) (i : ℕ) (a : MerkleNode)
      → All (λ entry. i ≢ entry.0) items
      → get_elem? nodes i ≡ some a
      → get_elem? (place_all digest hash nodes items) i ≡ some a
  unfolding place_all
  get_elem?-place_all nodes [] i a n h = h
  get_elem?-place_all nodes (entry ∷ items) i a n h =
      get_elem?-place_all (place digest hash nodes entry.0 entry.1) items i a n.1
        (get_elem?-place_other nodes entry.0 i entry.1 a n.0 h)

  -- The item that comes last for an index is the one whose node is there.
  pub last_item_is_placed :
      (nodes : List MerkleNode) (before after : List (ℕ × T)) (i : ℕ) (item : T)
      → All (λ entry. i ≢ entry.0) after
      → get_elem? (place_all digest hash nodes (before ++ ((i, item) ∷ after))) i
        ≡ some (from_value digest hash item)
  unfolding place_all
  last_item_is_placed nodes [] after i item n =
      get_elem?-place_all (place digest hash nodes i item) after i _ n
        (get_elem?-place nodes i item)
  last_item_is_placed nodes (entry ∷ before) after i item n =
      last_item_is_placed (place digest hash nodes entry.0 entry.1) before after i item n

-- A list's entries as a function, with a value for the indices out of its bounds.
unfoldable pub entry_or : {A : Type 0} → A → List A → ℕ → A
entry_or a [] i = a
entry_or a (x ∷ xs) zero = x
entry_or a (x ∷ xs) (suc i) = entry_or a xs i

pub get_elem?-entry_or :
    {A : Type 0} (d : A) (xs : List A) (i : ℕ)
    → i < length xs
    → get_elem? xs i ≡ some (entry_or d xs i)
unfolding entry_or
get_elem?-entry_or d [] i h = ground arith
get_elem?-entry_or d (x ∷ xs) zero h = refl
get_elem?-entry_or d (x ∷ xs) (suc i) h = get_elem?-entry_or d xs i (omega (arith, h))
