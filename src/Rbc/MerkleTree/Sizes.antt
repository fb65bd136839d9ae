-- ===== src/Rbc/MerkleTree/Sizes.antt =====
-- The size of the tree in ayatori-rbc/src/merkle_tree.rs: with indices of some width, the list of its
-- leaves has at most as many levels as that.
use ayatori.Prelude.{
  ℕ, zero, suc, ◌+◌, ◌-◌, ◌^◌, ◌≤◌, ◌<◌, List, [], ◌∷◌, length, ◌≡◌, refl, ap, inl, inr, arith,
  Bool-cases, leb, All, false,
}
use ayatori.Entities.Params.{Bytes}
use ayatori.Rbc.MerkleTree.{
  MerkleNode, power_from, resize, set, from_value, padding, place, place_all,
}
use ayatori.Rbc.MerkleTree.Levels.{power_is_positive, power_suc, power_ap}
use ayatori.Rbc.MerkleTree.Leaves.{length-resize}

power_mono : (i j d : ℕ) → i + d ≡ j → 2 ^ i ≤ 2 ^ j
power_mono i j zero e = omega (arith, power_ap i j (omega (arith, e)))
power_mono i j (suc d) e =
    omega (arith, power_mono (suc i) j d (omega (arith, e)), power_suc i, power_is_positive i)

pub exponents_le : (k b : ℕ) → 2 ^ k ≤ 2 ^ b → k ≤ b
exponents_le k b h = elim (Bool-cases (leb k b)) [
  | inl e ↦ ground (arith, e)
  | inr e ↦
      let above : suc b ≤ k = ground (arith, e) in
      absurd (
        omega (
          arith,
          h,
          power_mono (suc b) k (k - suc b) (omega (arith, above)),
          power_suc b,
          power_is_positive b,
        ))
]

pub power_from_le : (fuel k n b : ℕ) → n ≤ 2 ^ b → k ≤ b → power_from fuel k n ≤ 2 ^ b
unfolding power_from
power_from_le zero k n b h le = power_mono k b (b - k) (omega (arith, le))
power_from_le (suc fuel) k n b h le = elim (Bool-cases (leb n (2 ^ k))) [
  | inl e ↦ rw e (power_mono k b (b - k) (omega (arith, le)))
  | inr e ↦ rw e (power_from_le fuel (suc k) n b h (next_le e))
]
  where
    next_le : leb n (2 ^ k) ≡ false → suc k ≤ b
    next_le e = elim (Bool-cases (leb (suc k) b)) [
      | inl m ↦ ground (arith, m)
      | inr m ↦
          let same : k ≡ b = ground (arith, le, m) in
          absurd (ground (arith, e, h, power_ap k b same))
    ]

length-set : {A : Type 0} (xs : List A) (i : ℕ) (a : A) → length (set xs i a) ≡ length xs
unfolding set
length-set [] i a = refl
length-set (x ∷ xs) zero a = refl
length-set (x ∷ xs) (suc i) a = ap suc (length-set xs i a)

module _ (digest : Bytes → Bytes) {T : Type 0} (hash : T → Bytes) (size : ℕ) where
  length-place :
      (nodes : List MerkleNode) (idx : ℕ) (item : T)
      → length nodes ≤ size
      → idx < size
      → length (place digest hash nodes idx item) ≤ size
  unfolding place
  length-place nodes idx item h b = elim (Bool-cases (leb (length nodes) idx)) [
    | inl e ↦ rw e (
        omega (
          arith,
          b,
          length-set (resize nodes (idx + 1) (padding digest)) idx (from_value digest hash item),
          length-resize nodes (idx + 1) (padding digest),
        ))
    | inr e ↦ rw e (omega (arith, h, length-set nodes idx (from_value digest hash item)))
  ]

  pub length-place_all :
      (nodes : List MerkleNode) (items : List (ℕ × T))
      → length nodes ≤ size
      → All (λ entry. entry.0 < size) items
      → length (place_all digest hash nodes items) ≤ size
  unfolding place_all
  length-place_all nodes [] h b = h
  length-place_all nodes (entry ∷ items) h b =
      length-place_all (place digest hash nodes entry.0 entry.1) items
        (length-place nodes entry.0 entry.1 h b.0) b.1
