-- ===== src/Graph/Traversal.antt =====
-- ayatori/src/graph_representation/node_tree.rs: `LeavesFirstIterator` and `UnorderedIterator`, over
-- any nodes with identifiers and children. A queue is read from its end, so the last element of the
-- vector stands first in the list here. Collecting an iterator is on fuel, with `none` where it runs out.
pub mod LeavesFirst
pub mod Unordered
pub mod Reached
pub mod RootsFirst
pub mod Emitted
use ayatori.Prelude.{
  ℕ, zero, suc, ◌≡◌, ◌⊎◌, List, [], ◌∷◌, Option, none, some, Bool, not, if◌then◌else◌,
}
use ayatori.Collections.Order.{nat_ord}
use ayatori.Collections.BTreeSet.{BTreeSet, contains, insert}

pub record Iterator (N : Type 0) : Type 0 where
  pub queue : List N
  pub emitted : BTreeSet ℕ

-- `extend` of a queue.
unfoldable pub push_all : {N : Type 0} → List N → List N → List N
push_all queue [] = queue
push_all queue (n ∷ ns) = push_all (n ∷ queue) ns

unfoldable pub prepend : {N : Type 0} → N → Option (List N) → Option (List N)
prepend n none = none
prepend n (some ns) = some (n ∷ ns)

unfoldable pub emit : {N : Type 0} → Option N → Option (List N) → Option (List N)
emit none rest = rest
emit (some n) rest = prepend n rest

module _ {N : Type 0} (id : N → ℕ) where
  unfoldable pub unprocessed : BTreeSet ℕ → List N → List N
  unprocessed emitted [] = []
  unprocessed emitted (n ∷ ns) =
      if contains emitted (id n) then unprocessed emitted ns else n ∷ unprocessed emitted ns

  -- A round of the loop in `LeavesFirstIterator::next`, with what it returns.
  unfoldable pub visit : List N → BTreeSet ℕ → N → List N → Iterator N × Option N
  visit queue emitted node [] =
      (record { queue = queue; emitted = insert emitted (id node) }, some node)
  visit queue emitted node (n ∷ ns) =
      (record { queue = push_all (node ∷ queue) (n ∷ ns); emitted = emitted }, none)

module _ {N : Type 0} (id : N → ℕ) (children : N → List N) where
  unfoldable pub leaves_first_round : List N → BTreeSet ℕ → N → Iterator N × Option N
  leaves_first_round queue emitted node =
      if contains emitted (id node)
      then (record { queue = queue; emitted = emitted }, none)
      else visit id queue emitted node (unprocessed id emitted (children node))

  unfoldable pub leaves_first : ℕ → List N → BTreeSet ℕ → Option (List N)
  leaves_first fuel [] emitted = some []
  leaves_first zero (node ∷ queue) emitted = none
  leaves_first (suc fuel) (node ∷ queue) emitted =
      let round = leaves_first_round queue emitted node in
      emit round.1 (leaves_first fuel round.0.queue round.0.emitted)

  -- `UnorderedIterator::next`.
  unfoldable pub unordered_next : List N → BTreeSet ℕ → N → Iterator N
  unordered_next queue emitted node = record {
    queue = push_all queue (unprocessed id emitted (children node));
    emitted = insert emitted (id node);
  }

  unfoldable pub unordered : ℕ → List N → BTreeSet ℕ → Option (List N)
  unordered fuel [] emitted = some []
  unordered zero (node ∷ queue) emitted = none
  unordered (suc fuel) (node ∷ queue) emitted =
      let next = unordered_next queue emitted node in
      prepend node (unordered fuel next.queue next.emitted)

abbrev pub IsMember : {N : Type 0} → N → List N → Type 0
IsMember n [] = ⊥
IsMember n (m ∷ ns) = (n ≡ m) ⊎ IsMember n ns

-- The nodes below a node, itself included.
pub data Reach {N : Type 0} (children : N → List N) (root : N) : N → Type 0 where
  here : Reach children root root
  below : {m n : N} → Reach children root m → IsMember n (children m) → Reach children root n
