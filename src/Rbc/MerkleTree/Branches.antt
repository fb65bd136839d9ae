-- ===== src/Rbc/MerkleTree/Branches.antt =====
-- The branches of the tree in ayatori-rbc/src/merkle_tree.rs: what `branch` takes out of a tree with
-- `2 ^ k` leaves, and where `verify` climbs with it.
use ayatori.Prelude.{
  ℕ, zero, suc, ◌+◌, ◌-◌, ◌*◌, ◌/◌, ◌%◌, ◌^◌, ◌≤◌, ◌<◌, List, [], ◌∷◌, some, true, false, length,
  ◌≡◌, refl, ap, ◌∙◌, inl, inr, arith, Bool-cases, ◌==◌, ltb,
}
use ayatori.Entities.Params.{Bytes}
use ayatori.Rbc.MerkleTree.{
  Target, shift_right, MerkleNode, MerkleTree, ◌>>◌, flip_lowest, from_nodes, level_offset, climb,
  siblings, root, ilog2_from, ilog2,
}
use ayatori.Rbc.MerkleTree.Levels.{
  power_is_positive, power_suc, power_ap, level_offset-add, level_width, get_elem?_at, subst2, node,
  IsFilled,
}

not_small : (n : ℕ) → ltb (2 ^ suc n) 2 ≡ false
not_small n = ground (arith, power_suc n, power_is_positive n)

halved : (n : ℕ) → 2 ^ suc n / 2 ≡ 2 ^ n
halved n = omega (arith, power_suc n)

ilog2_from_power : (fuel n : ℕ) → n ≤ fuel → ilog2_from fuel (2 ^ n) ≡ n
unfolding ilog2_from
ilog2_from_power zero n h = omega (arith, h)
ilog2_from_power (suc fuel) zero h = refl
ilog2_from_power (suc fuel) (suc n) h =
    rw (not_small n, halved n) (ap suc (ilog2_from_power fuel n (omega (arith, h))))

pub below_power : (n : ℕ) → n < 2 ^ n
below_power zero = omega (arith, power_is_positive 0)
below_power (suc n) = omega (arith, below_power n, power_suc n)

pub ilog2_power : (n : ℕ) → ilog2 (2 ^ n) ≡ n
unfolding ilog2
ilog2_power n = ilog2_from_power (2 ^ n) n (omega (arith, below_power n))

-- The ancestor of a leaf is in its level.
shifted_below : (k l idx : ℕ) → l ≤ k → idx < 2 ^ k → (idx >> l) < 2 ^ (k - l)
unfolding ◌>>◌
shifted_below k zero idx h b = omega (arith, b, power_ap (k - 0) k (omega arith))
shifted_below k (suc l) idx h b = omega (
  arith,
  shifted_below k l idx (omega (arith, h)) b,
  power_suc (k - suc l),
  power_ap (k - l) (suc (k - suc l)) (omega arith),
)

half_even : (v : ℕ) → (v % 2 == 0) ≡ true → (v ≡ 2 * (v / 2)) × (flip_lowest v ≡ 2 * (v / 2) + 1)
unfolding flip_lowest
half_even v e = rw e (ground arith, ground arith)

half_odd : (v : ℕ) → (v % 2 == 0) ≡ false → (v ≡ 2 * (v / 2) + 1) × (flip_lowest v ≡ 2 * (v / 2))
unfolding flip_lowest
half_odd v e = rw e (ground arith, ground arith)

flip_lowest_below : (v m : ℕ) → v < 2 * m → flip_lowest v < 2 * m
flip_lowest_below v m h = elim (Bool-cases (v % 2 == 0)) [
  | inl e ↦ omega (arith, h, half_even v e)
  | inr e ↦ omega (arith, h, half_odd v e)
]

below_level : (k l idx : ℕ) → l < k → idx < 2 ^ k → flip_lowest (idx >> l) < 2 ^ (k - l)
below_level k l idx h b = omega (
  arith,
  flip_lowest_below (idx >> l) (2 ^ (k - suc l))
      (omega (arith, shifted_below k l idx (omega (arith, h)) b, half)),
  half,
)
  where
    half : 2 ^ (k - l) ≡ 2 * 2 ^ (k - suc l)
    half =
        omega (arith, power_suc (k - suc l), power_ap (k - l) (suc (k - suc l)) (omega (arith, h)))

-- The list has room for all the levels and nothing else.
full : (k : ℕ) → level_offset (suc k) (suc k) + 1 ≡ 2 * 2 ^ k
full k =
    omega
      (arith, level_offset-add k (suc k) (omega arith), power_ap (suc k - suc k) 0 (omega arith))

shift_right_below :
    (target : Target) (n level : ℕ)
    → level < target.usize_bits
    → shift_right target n level ≡ some (n >> level)
unfolding shift_right
shift_right_below target n level h = ground (arith, h)

module _ (target : Target) (digest : Bytes → Bytes) (leaf : ℕ → MerkleNode) where
  -- One step of `verify`, from a node and its sibling, leads to their parent.
  climb-flip_lowest :
      (l idx : ℕ) (nodes : List MerkleNode)
      → l < target.usize_bits
      → climb target digest idx l
          (node digest leaf l (idx >> l))
          (node digest leaf l (flip_lowest (idx >> l)) ∷ nodes)
        ≡ climb target digest idx (suc l) (node digest leaf (suc l) (idx >> suc l)) nodes
  unfolding climb node ◌>>◌
  climb-flip_lowest l idx nodes h = elim (Bool-cases (v % 2 == 0)) [
    | inl e ↦
        rw (shift_right_below target idx l h, e)
          (subst2
            (λ a b.
              climb target digest idx (suc l) (parent v (flip_lowest v)) nodes
              ≡ climb target digest idx (suc l) (parent a b) nodes)
            (half_even v e).0 (half_even v e).1 refl)
    | inr e ↦
        rw (shift_right_below target idx l h, e)
          (subst2
            (λ a b.
              climb target digest idx (suc l) (parent (flip_lowest v) v) nodes
              ≡ climb target digest idx (suc l) (parent b a) nodes)
            (half_odd v e).0 (half_odd v e).1 refl)
  ]
    where
      v : ℕ
      v = idx >> l

      parent : ℕ → ℕ → MerkleNode
      parent a b = from_nodes digest (node digest leaf l a) (node digest leaf l b)

  -- The branch of a leaf has the nodes with which `verify` climbs to the root.
  pub climb-siblings :
      (k count l idx : ℕ) (t : MerkleTree)
      → l + count ≡ k
      → k ≤ target.usize_bits
      → idx < 2 ^ k
      → IsFilled digest leaf k k t.nodes
      → (nodes : List MerkleNode) × (siblings t (suc k) idx count l ≡ some nodes)
        × (climb target digest idx l (node digest leaf l (idx >> l)) nodes
            ≡ some (node digest leaf k 0))
  unfolding siblings climb
  climb-siblings k zero l idx t h fits b filled = (
    [],
    refl,
    ap some (
        ap (λ n. node digest leaf n (idx >> n)) (omega (arith, h))
        ∙ ap (λ n. node digest leaf k n)
            (omega
              (arith, shifted_below k k idx (omega arith) b, power_ap (k - k) 0 (omega arith)))),
  )
  climb-siblings k (suc count) l idx t h fits b filled =
      let rest = climb-siblings k count (suc l) idx t (omega (arith, h)) fits b filled in
      let sibling =
        filled.1 l (flip_lowest (idx >> l)) (omega (arith, h))
          (below_level k l idx (omega (arith, h)) b) in
      (
        node digest leaf l (flip_lowest (idx >> l)) ∷ rest.0,
        rw (sibling, rest.1) refl,
        climb-flip_lowest l idx rest.0 (omega (arith, h, fits)) ∙ rest.2,
      )

module _ (digest : Bytes → Bytes) (leaf : ℕ → MerkleNode) where
  pub root-IsFilled :
      (k : ℕ) (t : MerkleTree)
      → IsFilled digest leaf k k t.nodes
      → root t ≡ some (node digest leaf k 0)
  unfolding root
  root-IsFilled k t filled =
      get_elem?_at t.nodes (level_offset (suc k) k + 0) (length t.nodes - 1)
        (omega (
          arith,
          filled.0,
          level_offset-add k k (omega arith),
          level_width k k (omega arith),
          power_ap (k - k) 0 (omega arith),
          full k,
        ))
        (filled.1 k 0 (omega arith) (power_is_positive (k - k)))

  pub ilog2-IsFilled :
      (k : ℕ) (t : MerkleTree)
      → IsFilled digest leaf k k t.nodes
      → ilog2 (length t.nodes + 1) ≡ suc k
  ilog2-IsFilled k t filled =
      ap ilog2 (omega (arith, filled.0, full k, power_suc k)) ∙ ilog2_power (suc k)
