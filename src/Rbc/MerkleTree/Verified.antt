-- ===== src/Rbc/MerkleTree/Verified.antt =====
-- That the branches of a tree made by ayatori-rbc/src/merkle_tree.rs verify.
use ayatori.Prelude.{
  ℕ, zero, suc, ◌+◌, ◌-◌, ◌^◌, ◌≤◌, ◌<◌, List, [], ◌∷◌, ◌++◌, some, true, false, length, get_elem?,
  ◌≡◌, ◌≢◌, refl, sym, ap, ◌∙◌, subst, arith, All, if_pos,
}
use ayatori.Entities.Params.{Bytes, Bytes_discrete}
use ayatori.Entities.Errors.{ok}
use ayatori.Rbc.MerkleTree.{
  Target, MerkleNode, MerkleTree, MerkleBranch, ◌>>◌, siblings, level_offset, root, ilog2,
  power_from, next_power_of_two, resize, from_value, padding, place_all, build, new_from, new,
  climb, verify, branch, fill_levels,
}
use ayatori.Rbc.MerkleTree.Levels.{
  power_suc, power_ap, subst2, get_elem?_at, level_offset-add, node, IsFilled, fill_levels_lem,
}
use ayatori.Rbc.MerkleTree.Leaves.{
  power_from_lem, length-resize, get_elem?-resize, get_elem?_below, last_item_is_placed, entry_or,
  get_elem?-entry_or,
}
use ayatori.Rbc.MerkleTree.Sizes.{exponents_le, power_from_le, length-place_all}
use ayatori.Rbc.MerkleTree.Branches.{
  ilog2_power, climb-siblings, root-IsFilled, ilog2-IsFilled, below_power,
}

module _ (digest : Bytes → Bytes) where
  leaves-IsFilled :
      (k : ℕ) (leaf : ℕ → MerkleNode) (leaves : List MerkleNode)
      → length leaves ≡ 2 ^ k
      → ((i : ℕ) → i < 2 ^ k → get_elem? leaves i ≡ some (leaf i))
      → IsFilled digest leaf k 0 leaves
  unfolding node
  leaves-IsFilled k leaf leaves h g = (fits, at)
    where
      fits : length leaves ≡ level_offset (suc k) 1
      fits =
          omega (arith, h, level_offset-add k 1 (omega arith), power_ap (suc k - 1) k (omega arith))

      at :
          (j i : ℕ)
          → j ≤ 0
          → i < 2 ^ (k - j)
          → get_elem? leaves (level_offset (suc k) j + i) ≡ some (node digest leaf j i)
      at zero i a b =
          get_elem?_at leaves i (level_offset (suc k) 0 + i)
            (omega (
              arith,
              level_offset-add k 0 (omega arith),
              power_ap (suc k - 0) (suc k) (omega arith),
              power_suc k,
            ))
            (g i (omega (arith, b, power_ap (k - 0) k (omega arith))))
      at (suc j) i a b = ground (arith, a)

  build-IsFilled :
      (k : ℕ) (leaf : ℕ → MerkleNode) (leaves : List MerkleNode)
      → length leaves ≡ 2 ^ k
      → ((i : ℕ) → i < 2 ^ k → get_elem? leaves i ≡ some (leaf i))
      → (t : MerkleTree) × (build digest leaves ≡ some t) × IsFilled digest leaf k k t.nodes
  unfolding build
  build-IsFilled k leaf leaves h g = (record { nodes = rest.0 }, rw run refl, rest.2)
    where
      rest :
          (m : List MerkleNode) × (fill_levels digest (suc k) k 0 leaves ≡ some m)
          × IsFilled digest leaf k k m
      rest =
          fill_levels_lem digest leaf k k 0 leaves (omega arith) (leaves-IsFilled k leaf leaves h g)

      rounds : ilog2 (length leaves) ≡ k
      rounds = ap ilog2 h ∙ ilog2_power k

      run :
          fill_levels digest (ilog2 (length leaves) + 1) (ilog2 (length leaves) + 1 - 1) 0 leaves
          ≡ some rest.0
      run =
          subst2 (λ a b. fill_levels digest a b 0 leaves ≡ some rest.0) (omega (arith, rounds))
            (omega (arith, rounds)) rest.1

  -- A non-empty list of leaves grows to a power of two, and the tree over it has it as its lowest
  -- level.
  pub new_from-IsFilled :
      (bits : ℕ) (leaves : List MerkleNode) (i : ℕ) (a : MerkleNode)
      → length leaves ≤ 2 ^ bits
      → get_elem? leaves i ≡ some a
      → (k : ℕ) × (leaf : ℕ → MerkleNode) × (t : MerkleTree) × (new_from digest leaves
          ≡ some (ok t))
        × IsFilled digest leaf k k t.nodes
        × (i < 2 ^ k)
        × (leaf i ≡ a)
        × (k ≤ bits)
  unfolding new_from next_power_of_two
  new_from-IsFilled bits [] i a fits h = ground arith
  new_from-IsFilled bits (x ∷ xs) i a fits h =
      (size.0, leaf, built.0, rw (built.1) refl, built.2, inside, same, low)
    where
      size :
          (k : ℕ) × (power_from (suc (length xs)) 0 (suc (length xs)) ≡ 2 ^ k)
          × (suc (length xs) ≤ 2 ^ k)
      size = power_from_lem (suc (length xs)) 0 (suc (length xs)) (
          omega (
            arith,
            below_power (suc (length xs)),
            power_ap (0 + suc (length xs)) (suc (length xs)) (omega arith),
          ))

      low : size.0 ≤ bits
      low = exponents_le size.0 bits (
          omega (
            arith,
            size.1,
            power_from_le (suc (length xs)) 0 (suc (length xs)) bits fits (omega arith),
          ))

      leaves : List MerkleNode
      leaves = resize (x ∷ xs) (power_from (suc (length xs)) 0 (suc (length xs))) (padding digest)

      leaf : ℕ → MerkleNode
      leaf = entry_or (padding digest) leaves

      full : length leaves ≡ 2 ^ size.0
      full =
          length-resize (x ∷ xs) (power_from (suc (length xs)) 0 (suc (length xs))) (padding digest)
          ∙ size.1

      built :
          (t : MerkleTree) × (build digest leaves ≡ some t)
          × IsFilled digest leaf size.0 size.0 t.nodes
      built =
          build-IsFilled size.0 leaf leaves full
            (λ j b. get_elem?-entry_or (padding digest) leaves j (omega (arith, b, full)))

      inside : i < 2 ^ size.0
      inside = omega (arith, get_elem?_below (x ∷ xs) i a h, size.2)

      kept : get_elem? leaves i ≡ some a
      kept = get_elem?-resize (x ∷ xs) _ i (padding digest) a (omega (arith, inside, size.1)) h

      same : leaf i ≡ a
      same =
          ground (
            arith,
            kept,
            get_elem?-entry_or (padding digest) leaves i (omega (arith, inside, full)),
          )

  -- A branch of the tree made of some items, each at an index that is a `usize`, verifies at an index with
  -- the last item given for it, and it has the tree's root. Making the tree and taking the branch meet no
  -- index that is out of bounds, and verifying it no shift that is.
  pub verify-branch :
      (target : Target) {T : Type 0} (hash : T → Bytes) (before after : List (ℕ × T)) (idx : ℕ)
      (item : T)
      → All (λ entry. entry.0 < 2 ^ target.usize_bits) (before ++ ((idx, item) ∷ after))
      → All (λ entry. idx ≢ entry.0) after
      → (t : MerkleTree) × (b : MerkleBranch) × (new digest hash (before ++ ((idx, item) ∷ after))
          ≡ some (ok t))
        × (branch t idx ≡ some b)
        × (root t ≡ some b.root)
        × (verify target digest hash b idx item ≡ some true)
  unfolding new branch verify node ◌>>◌
  verify-branch target hash before after idx item sized n = (t, b, made, taken_off, top, verified)
    where
      leaves : List MerkleNode
      leaves = place_all digest hash [] (before ++ ((idx, item) ∷ after))

      tree :
          (k : ℕ) × (leaf : ℕ → MerkleNode) × (t : MerkleTree) × (new_from digest leaves
            ≡ some (ok t))
          × IsFilled digest leaf k k t.nodes
          × (idx < 2 ^ k)
          × (leaf idx ≡ from_value digest hash item)
          × (k ≤ target.usize_bits)
      tree =
          new_from-IsFilled target.usize_bits leaves idx (from_value digest hash item)
            (length-place_all digest hash (2 ^ target.usize_bits) []
              (before ++ ((idx, item) ∷ after)) (omega arith) sized)
            (last_item_is_placed digest hash [] before after idx item n)

      t : MerkleTree
      t = tree.2

      climbing :
          (nodes : List MerkleNode) × (siblings t (suc tree.0) idx tree.0 0 ≡ some nodes)
          × (climb target digest idx 0 (node digest tree.1 0 (idx >> 0)) nodes
              ≡ some (node digest tree.1 tree.0 0))
      climbing =
          climb-siblings target digest tree.1 tree.0 tree.0 0 idx t (omega arith) tree.7 tree.5
            tree.4

      b : MerkleBranch
      b = record { nodes = climbing.0; root = node digest tree.1 tree.0 0 }

      made : new digest hash (before ++ ((idx, item) ∷ after)) ≡ some (ok t)
      made = tree.3

      top : root t ≡ some b.root
      top = root-IsFilled digest tree.1 tree.0 t tree.4

      levels : ilog2 (length t.nodes + 1) ≡ suc tree.0
      levels = ilog2-IsFilled digest tree.1 tree.0 t tree.4

      run :
          siblings t (ilog2 (length t.nodes + 1)) idx (ilog2 (length t.nodes + 1) - 1) 0
          ≡ some b.nodes
      run =
          subst2 (λ a c. siblings t a idx c 0 ≡ some b.nodes) (sym levels) (omega (arith, levels))
            climbing.1

      taken_off : branch t idx ≡ some b
      taken_off = rw (run, top) refl

      climbed : climb target digest idx 0 (from_value digest hash item) b.nodes ≡ some b.root
      climbed = subst (λ a. climb target digest idx 0 a b.nodes ≡ some b.root) tree.6 climbing.2

      verified : verify target digest hash b idx item ≡ some true
      verified = rw climbed (ap some (if_pos (Bytes_discrete b.root b.root) refl true false))
