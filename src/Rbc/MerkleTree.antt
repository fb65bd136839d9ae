-- ===== src/Rbc/MerkleTree.antt =====
-- ayatori-rbc/src/merkle_tree.rs: the tree, its branches and their verification. `digest` is the
-- output of a fresh hasher on the bytes that it was updated with. An index out of bounds is a panic
-- of the source, which is `none` here. The sizes are those of lists in memory, so `usize` does not
-- wrap around; a branch that `verify` gets from a peer can have any length, so a shift by its level is
-- that of a `usize`.
use ayatori.Prelude.{
  ℕ, zero, suc, ◌+◌, ◌-◌, ◌*◌, ◌/◌, ◌%◌, ◌^◌, List, [], ◌∷◌, ◌++◌, Option, some, none, Bool, true,
  false, length, get_elem?, if◌then◌else◌, ◌==◌, ltb, leb, ite,
}
use ayatori.Entities.Params.{Bytes, Bytes_discrete, ascii}
use ayatori.Entities.Errors.{RuntimeError, failed, Result, ok, err}
pub mod Levels
pub mod Leaves
pub mod Sizes
pub mod Branches
pub mod Verified
pub mod Binding

infixl 10 ◌>>=◌
abbrev pub ◌>>=◌ : {A B : Type 0} → Option A → (A → Option B) → Option B
none >>= f = none
some a >>= f = f a

infixl 70 ◌>>◌
unfoldable pub ◌>>◌ : ℕ → ℕ → ℕ
n >> zero = n
n >> suc k = (n >> k) / 2

-- The width of a `usize`, and whether the program is compiled with checks of overflow.
pub record Target : Type 0 where
  pub usize_bits : ℕ
  pub overflow_checks : Bool

-- `n >> level` of a `usize`. A shift by its width or more panics where overflow is checked, and is one
-- by the remainder where it is not.
unfoldable pub shift_right : Target → ℕ → ℕ → Option ℕ
shift_right target n level =
    if ltb level target.usize_bits
    then some (n >> level)
    else if target.overflow_checks
    then none
    else some (n >> (level % target.usize_bits))

-- `n ^ 1`, on the bits.
unfoldable pub flip_lowest : ℕ → ℕ
flip_lowest n = if n % 2 == 0 then n + 1 else n - 1

-- `ilog2` of a positive number below `2 ^ fuel`.
unfoldable pub ilog2_from : ℕ → ℕ → ℕ
ilog2_from zero n = 0
ilog2_from (suc fuel) n = let rest = ilog2_from fuel (n / 2) in if ltb n 2 then 0 else suc rest

unfoldable pub ilog2 : ℕ → ℕ
ilog2 n = ilog2_from n n

-- The first of `fuel + 1` powers of two, from `2 ^ k` on, that is not below `n`.
unfoldable pub power_from : ℕ → ℕ → ℕ → ℕ
power_from zero k n = 2 ^ k
power_from (suc fuel) k n =
    let rest = power_from fuel (suc k) n in if leb n (2 ^ k) then 2 ^ k else rest

unfoldable pub next_power_of_two : ℕ → ℕ
next_power_of_two n = power_from n 0 n

-- `resize_with` where the list grows.
unfoldable pub resize : {A : Type 0} → List A → ℕ → A → List A
resize [] zero a = []
resize [] (suc n) a = a ∷ resize [] n a
resize (x ∷ xs) zero a = []
resize (x ∷ xs) (suc n) a = x ∷ resize xs n a

unfoldable pub set : {A : Type 0} → List A → ℕ → A → List A
set [] i a = []
set (x ∷ xs) zero a = a ∷ xs
set (x ∷ xs) (suc i) a = x ∷ set xs i a

abbrev pub MerkleNode : Type 0
MerkleNode = Bytes

pub record MerkleTree : Type 0 where
  pub nodes : List MerkleNode

pub record MerkleBranch : Type 0 where
  pub nodes : List MerkleNode
  pub root : MerkleNode

-- The start of a level in the list of the nodes.
unfoldable pub level_offset : ℕ → ℕ → ℕ
level_offset levels level = 2 ^ (levels - level) * (2 ^ level - 1)

module _ (digest : Bytes → Bytes) where
  unfoldable pub from_value : {T : Type 0} → (T → Bytes) → T → MerkleNode
  from_value hash value = digest (ascii "MerkleTree" ++ (1 ∷ hash value))

  unfoldable pub padding : MerkleNode
  padding = digest (ascii "MerkleTree" ++ (0 ∷ []))

  unfoldable pub from_nodes : MerkleNode → MerkleNode → MerkleNode
  from_nodes left right = digest (ascii "MerkleTree" ++ (left ++ right))

  unfoldable pub place : {T : Type 0} → (T → Bytes) → List MerkleNode → ℕ → T → List MerkleNode
  place hash nodes idx item =
      let grown = if leb (length nodes) idx then resize nodes (idx + 1) padding else nodes in
      set grown idx (from_value hash item)

  unfoldable pub place_all :
      {T : Type 0} → (T → Bytes) → List MerkleNode → List (ℕ × T) → List MerkleNode
  place_all hash nodes [] = nodes
  place_all hash nodes (entry ∷ items) = place_all hash (place hash nodes entry.0 entry.1) items

  -- The inner loop of `new`, with `count` rounds left.
  unfoldable pub fill_level : ℕ → ℕ → ℕ → List MerkleNode → Option (List MerkleNode)
  fill_level offset zero idx nodes = some nodes
  fill_level offset (suc count) idx nodes = do
    left ← get_elem? nodes (offset + 2 * idx)
    right ← get_elem? nodes (offset + 2 * idx + 1)
    fill_level offset count (suc idx) (nodes ++ (from_nodes left right ∷ []))

  -- The outer loop of `new`, with `count` rounds left.
  unfoldable pub fill_levels : ℕ → ℕ → ℕ → List MerkleNode → Option (List MerkleNode)
  fill_levels levels zero level nodes = some nodes
  fill_levels levels (suc count) level nodes = do
    next ← fill_level (level_offset levels level) (2 ^ (levels - level - 2)) 0 nodes
    fill_levels levels count (suc level) next

  unfoldable pub build : List MerkleNode → Option MerkleTree
  build leaves = do
    nodes ← fill_levels levels (levels - 1) 0 leaves
    some (record { nodes = nodes })
    where
      levels : ℕ
      levels = ilog2 (length leaves) + 1

  unfoldable pub new_from : List MerkleNode → Option (Result RuntimeError MerkleTree)
  new_from [] = some (err (failed "The set of items must be non-empty"))
  new_from (node ∷ nodes) = do
    tree ← build (resize (node ∷ nodes) (next_power_of_two (length (node ∷ nodes))) padding)
    some (ok tree)

  unfoldable pub new :
      {T : Type 0} → (T → Bytes) → List (ℕ × T) → Option (Result RuntimeError MerkleTree)
  new hash items = new_from (place_all hash [] items)

module _ (target : Target) (digest : Bytes → Bytes) where
  -- The loop of `verify`, at a level.
  unfoldable pub climb : ℕ → ℕ → MerkleNode → List MerkleNode → Option MerkleNode
  climb idx level current_node [] = some current_node
  climb idx level current_node (node ∷ nodes) = do
    node_idx ← shift_right target idx level
    if node_idx % 2 == 0
        then climb idx (suc level) (from_nodes digest current_node node) nodes
        else climb idx (suc level) (from_nodes digest node current_node) nodes

  unfoldable pub verify : {T : Type 0} → (T → Bytes) → MerkleBranch → ℕ → T → Option Bool
  verify hash b idx value = do
    current_node ← climb idx 0 (from_value digest hash value) b.nodes
    some (ite (Bytes_discrete current_node b.root) true false)

unfoldable pub root : MerkleTree → Option MerkleNode
root t = get_elem? t.nodes (length t.nodes - 1)

-- The loop of `branch`, with `count` rounds left.
unfoldable pub siblings : MerkleTree → ℕ → ℕ → ℕ → ℕ → Option (List MerkleNode)
siblings t levels idx zero level = some []
siblings t levels idx (suc count) level = do
  node ← get_elem? t.nodes (level_offset levels level + flip_lowest (idx >> level))
  nodes ← siblings t levels idx count (suc level)
  some (node ∷ nodes)

unfoldable pub branch : MerkleTree → ℕ → Option MerkleBranch
branch t idx = do
  nodes ← siblings t levels idx (levels - 1) 0
  top ← root t
  some (record { nodes = nodes; root = top })
  where
    levels : ℕ
    levels = ilog2 (length t.nodes + 1)
