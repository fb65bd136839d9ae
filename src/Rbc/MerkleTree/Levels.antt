-- ===== src/Rbc/MerkleTree/Levels.antt =====
-- The levels of the tree in ayatori-rbc/src/merkle_tree.rs: where they start in the list of the
-- nodes, and what the loops of `MerkleTree::new` put there.
use ayatori.Prelude.{
  ℕ, zero, suc, ◌+◌, ◌-◌, ◌*◌, ◌^◌, ◌≤◌, ◌<◌, List, [], ◌∷◌, ◌++◌, some, length, get_elem?,
  ℕ_discrete, ◌≡◌, refl, sym, ap, subst, length-append, arith,
}
use native.Mathlib.Nat.{mul_assoc}
use ayatori.Entities.Params.{Bytes}
use ayatori.Rbc.MerkleTree.{MerkleNode, from_nodes, fill_level, fill_levels, level_offset}

get_elem?-append :
    {A : Type 0} (xs ys : List A) (i : ℕ) (a : A)
    → get_elem? xs i ≡ some a
    → get_elem? (xs ++ ys) i ≡ some a
get_elem?-append [] ys i a h = ground arith
get_elem?-append (x ∷ xs) ys zero a h = h
get_elem?-append (x ∷ xs) ys (suc i) a h = get_elem?-append xs ys i a h

get_elem?-length :
    {A : Type 0} (xs : List A) (a : A) → get_elem? (xs ++ (a ∷ [])) (length xs) ≡ some a
get_elem?-length [] a = refl
get_elem?-length (x ∷ xs) a = get_elem?-length xs a

pub get_elem?_at :
    {A : Type 0} (xs : List A) (i j : ℕ) {a : A}
    → i ≡ j
    → get_elem? xs i ≡ some a
    → get_elem? xs j ≡ some a
get_elem?_at xs i j {a} p h = subst (λ n. get_elem? xs n ≡ some a) p h

pub subst2 : (P : ℕ → ℕ → Type 0) {i j k l : ℕ} → i ≡ j → k ≡ l → P i k → P j l
subst2 P {j = j} {k = k} p q h = subst (λ n. P j n) q (subst (λ n. P n k) p h)

pub power_is_positive : (n : ℕ) → 1 ≤ 2 ^ n
power_is_positive zero = omega arith
power_is_positive (suc n) = omega (arith, power_is_positive n)

pub power_suc : (n : ℕ) → 2 ^ suc n ≡ 2 * 2 ^ n
power_suc n = omega arith

pub power_ap : (m n : ℕ) → m ≡ n → 2 ^ m ≡ 2 ^ n
power_ap m n h = ap (λ i. 2 ^ i) h

power_split : (m n : ℕ) → 2 ^ m * (2 ^ n - 1) + 2 ^ m ≡ 2 ^ (m + n)
power_split zero n = omega (arith, power_is_positive n, power_ap (0 + n) n (omega arith))
power_split (suc m) n =
    rw (power_suc m, mul_assoc 2 (2 ^ m) (2 ^ n - 1))
      (omega (
        arith,
        power_split m n,
        power_suc (m + n),
        power_ap (suc m + n) (suc (m + n)) (omega arith),
      ))

-- A level starts where twice its nodes are left.
pub level_offset-add : (k l : ℕ) → l ≤ suc k → level_offset (suc k) l + 2 ^ (suc k - l) ≡ 2 * 2 ^ k
unfolding level_offset
level_offset-add k l h =
    omega (
      arith,
      power_split (suc k - l) l,
      power_suc k,
      power_ap (suc k - l + l) (suc k) (omega arith),
    )

-- The nodes of a level, which are half as many as those from its start on.
pub level_width : (k l : ℕ) → l ≤ k → 2 ^ (suc k - l) ≡ 2 * 2 ^ (k - l)
level_width k l h =
    omega (arith, power_suc (k - l), power_ap (suc k - l) (suc (k - l)) (omega arith))

module _ (digest : Bytes → Bytes) (leaf : ℕ → MerkleNode) where
  -- The node at an index of a level.
  unfoldable pub node : ℕ → ℕ → MerkleNode
  node zero i = leaf i
  node (suc l) i = from_nodes digest (node l (2 * i)) (node l (2 * i + 1))

  -- The inner loop of `new`, with `count` rounds left, keeps the nodes that there are and adds the
  -- next ones of the level above.
  abbrev FillsLevel : ℕ → ℕ → ℕ → ℕ → List MerkleNode → Type 0
  FillsLevel l offset count idx nodes =
      (m : List MerkleNode) × (fill_level digest offset count idx nodes ≡ some m)
      × (length m ≡ length nodes + count)
      × ((j : ℕ) (a : MerkleNode) → get_elem? nodes j ≡ some a → get_elem? m j ≡ some a)
      × ((i : ℕ) → i < count → get_elem? m (length nodes + i) ≡ some (node (suc l) (idx + i)))

  FillsLevel-suc :
      (l offset count idx : ℕ) (nodes : List MerkleNode)
      → get_elem? nodes (offset + 2 * idx) ≡ some (node l (2 * idx))
      → get_elem? nodes (offset + 2 * idx + 1) ≡ some (node l (2 * idx + 1))
      → FillsLevel l offset count (suc idx) (nodes ++ (node (suc l) idx ∷ []))
      → FillsLevel l offset (suc count) idx nodes
  unfolding fill_level node
  FillsLevel-suc l offset count idx nodes left right rest = (
    rest.0,
    rw (left, right) rest.1,
    omega (arith, rest.2, grown),
    (λ j a e. rest.3 j a (get_elem?-append nodes (x ∷ []) j a e)),
    at,
  )
    where
      x : MerkleNode
      x = node (suc l) idx

      grown : length (nodes ++ (x ∷ [])) ≡ length nodes + 1
      grown = length-append nodes (x ∷ [])

      at :
          (i : ℕ)
          → i < suc count
          → get_elem? rest.0 (length nodes + i) ≡ some (node (suc l) (idx + i))
      at zero b =
          subst2 (λ j k. get_elem? rest.0 j ≡ some (node (suc l) k)) (omega arith) (omega arith)
            (rest.3 (length nodes) x (get_elem?-length nodes x))
      at (suc i) b =
          subst2 (λ j k. get_elem? rest.0 j ≡ some (node (suc l) k)) (omega (arith, grown))
            (omega arith) (rest.4 i (omega (arith, b)))

  fill_level_lem :
      (l offset count idx : ℕ) (nodes : List MerkleNode)
      → ((i : ℕ) → i < 2 * (idx + count) → get_elem? nodes (offset + i) ≡ some (node l i))
      → FillsLevel l offset count idx nodes
  unfolding fill_level
  fill_level_lem l offset zero idx nodes h =
      (nodes, refl, omega arith, (λ j a e. e), (λ i b. ground arith))
  fill_level_lem l offset (suc count) idx nodes h =
      FillsLevel-suc l offset count idx nodes (h (2 * idx) (omega arith))
        (get_elem?_at nodes (offset + (2 * idx + 1)) (offset + 2 * idx + 1) (omega arith)
          (h (2 * idx + 1) (omega arith)))
        (fill_level_lem l offset count (suc idx) _
          (λ i b. get_elem?-append nodes _ _ _ (h i (omega (arith, b)))))

  -- The levels up to `l` are in the list of nodes of a tree with `2 ^ k` leaves, and nothing else is.
  abbrev pub IsFilled : ℕ → ℕ → List MerkleNode → Type 0
  IsFilled k l nodes =
      (length nodes ≡ level_offset (suc k) (suc l))
      × ((j i : ℕ)
          → j ≤ l
          → i < 2 ^ (k - j)
          → get_elem? nodes (level_offset (suc k) j + i) ≡ some (node j i))

  IsFilled-suc :
      (k l : ℕ) (nodes : List MerkleNode)
      → l < k
      → IsFilled k l nodes
      → (m : List MerkleNode) × (fill_level digest
            (level_offset (suc k) l)
            (2 ^ (suc k - l - 2))
            0
            nodes
          ≡ some m)
        × IsFilled k (suc l) m
  IsFilled-suc k l nodes h filled = (step.0, step.1, (fits, at))
    where
      count : 2 ^ (suc k - l - 2) ≡ 2 ^ (k - suc l)
      count = power_ap (suc k - l - 2) (k - suc l) (omega arith)

      half : 2 ^ (k - l) ≡ 2 * 2 ^ (k - suc l)
      half = omega (arith, power_suc (k - suc l), power_ap (k - l) (suc (k - suc l)) (omega arith))

      step : FillsLevel l (level_offset (suc k) l) (2 ^ (suc k - l - 2)) 0 nodes
      step =
          fill_level_lem l (level_offset (suc k) l) (2 ^ (suc k - l - 2)) 0 nodes
            (λ i b. filled.1 l i (omega arith) (omega (arith, b, count, half)))

      fits : length step.0 ≡ level_offset (suc k) (suc (suc l))
      fits = omega (
        arith,
        step.2,
        filled.0,
        count,
        level_offset-add k (suc l) (omega arith),
        level_width k (suc l) (omega arith),
        level_offset-add k (suc (suc l)) (omega arith),
        power_ap (suc k - suc (suc l)) (k - suc l) (omega arith),
      )

      at :
          (j i : ℕ)
          → j ≤ suc l
          → i < 2 ^ (k - j)
          → get_elem? step.0 (level_offset (suc k) j + i) ≡ some (node j i)
      at j i a b = elim (ℕ_discrete j (suc l)) [
        | no n ↦ step.3 _ _ (filled.1 j i (omega (arith, n, a)) b)
        | yes p ↦ at_last j i p b
      ]
        where
          at_last :
              (j i : ℕ)
              → j ≡ suc l
              → i < 2 ^ (k - j)
              → get_elem? step.0 (level_offset (suc k) j + i) ≡ some (node j i)
          at_last j i p b =
              subst
                (λ j'.
                  i < 2 ^ (k - j')
                  → get_elem? step.0 (level_offset (suc k) j' + i) ≡ some (node j' i))
                (sym p)
                (λ c.
                  subst2 (λ n n'. get_elem? step.0 n ≡ some (node (suc l) n'))
                    (omega (arith, filled.0)) (omega arith) (step.4 i (omega (arith, c, count))))
                b

  pub fill_levels_lem :
      (k count l : ℕ) (nodes : List MerkleNode)
      → l + count ≡ k
      → IsFilled k l nodes
      → (m : List MerkleNode) × (fill_levels digest (suc k) count l nodes ≡ some m) × IsFilled k k m
  unfolding fill_levels
  fill_levels_lem k zero l nodes h filled =
      (nodes, refl, subst (λ n. IsFilled k n nodes) (omega (arith, h)) filled)
  fill_levels_lem k (suc count) l nodes h filled =
      let step = IsFilled-suc k l nodes (omega (arith, h)) filled in
      let rest = fill_levels_lem k count (suc l) step.0 (omega (arith, h)) step.2 in
      (rest.0, rw (step.1) rest.1, rest.2)
