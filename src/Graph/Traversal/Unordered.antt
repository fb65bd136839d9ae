-- ===== src/Graph/Traversal/Unordered.antt =====
-- What `UnorderedIterator` of ayatori/src/graph_representation/node_tree.rs promises: it ends, and it
-- returns all that is below the nodes in the queue, and nothing else.
use ayatori.Prelude.{
  ℕ, zero, suc, ◌+◌, ◌≤◌, ◌≡◌, refl, List, [], ◌∷◌, some, arith, All, total, sym, subst,
}
use ayatori.Collections.Order.{nat_ord}
use ayatori.Collections.BTreeSet.{BTreeSet, insert}
use ayatori.Graph.Traversal.{push_all, prepend, unprocessed, unordered_next, unordered}
use ayatori.Graph.Traversal.Emitted.{
  insert-Extends, insert-contains, prepend-some, AreEmitted, emitted_after, emitted_after-Extends,
  push_all_emitted, pushed_emitted, unprocessed-AreEmitted, total-push_all, All-push_all,
  total-unprocessed, All-unprocessed,
}

module _ {N : Type 0} (id : N → ℕ) (children : N → List N) where
  unordered-prepend :
      (fuel : ℕ) (queue : List N) (emitted : BTreeSet ℕ) (node : N) (out : List N)
      → unordered id children (suc fuel) (node ∷ queue) emitted ≡ some out
      → (rest : List N) × (unordered id children fuel
            (push_all queue (unprocessed id emitted (children node)))
            (insert emitted (id node))
          ≡ some rest)
        × (out ≡ node ∷ rest)
  unfolding unordered unordered_next
  unordered-prepend fuel queue emitted node out h =
      prepend-some node
        (unordered id children fuel (push_all queue (unprocessed id emitted (children node)))
          (insert emitted (id node)))
        out h

  -- All that the queue holds is returned, and the children of all that is returned.
  pub unordered_complete :
      (fuel : ℕ) (queue : List N) (emitted : BTreeSet ℕ) (out : List N)
      → unordered id children fuel queue emitted ≡ some out
      → AreEmitted id (emitted_after id emitted out) queue
        × All (λ n. AreEmitted id (emitted_after id emitted out) (children n)) out
  unfolding unordered
  unordered_complete fuel [] emitted out h = (
    tt,
    subst (λ ns. All (λ n. AreEmitted id (emitted_after id emitted ns) (children n)) ns) {x = []}
        (ground (arith, h)) tt,
  )
  unordered_complete zero (node ∷ queue) emitted out h = ground (arith, h)
  unordered_complete (suc fuel) (node ∷ queue) emitted out h =
      let p = unordered-prepend fuel queue emitted node out h in
      let below =
        unordered_complete fuel (push_all queue (unprocessed id emitted (children node)))
          (insert emitted (id node)) p.0 p.1 in
      let last = emitted_after id (insert emitted (id node)) p.0 in
      let grown = emitted_after-Extends id (insert emitted (id node)) p.0 in
      subst
        (λ ns.
          AreEmitted id (emitted_after id emitted ns) (node ∷ queue)
          × All (λ n. AreEmitted id (emitted_after id emitted ns) (children n)) ns)
        (sym p.2)
        (
          (
            grown (id node) (insert-contains emitted (id node)),
            push_all_emitted id last queue (unprocessed id emitted (children node)) below.0,
          ),
          (
            unprocessed-AreEmitted id emitted last (children node)
                (λ i x. grown i (insert-Extends emitted (id node) i x))
                (pushed_emitted id last queue (unprocessed id emitted (children node)) below.0),
            below.1,
          ),
        )

  -- What holds of the queue, and of the children of a node where it holds of the node, holds of all
  -- that is returned.
  pub unordered-All :
      (P : N → Type 0)
      → ((n : N) → P n → All P (children n))
      → (fuel : ℕ) (queue : List N) (emitted : BTreeSet ℕ) (out : List N) → All P queue
      → unordered id children fuel queue emitted ≡ some out
      → All P out
  unfolding unordered
  unordered-All P keep fuel [] emitted out a h = subst (All P) {x = []} (ground (arith, h)) tt
  unordered-All P keep zero (node ∷ queue) emitted out a h = ground (arith, h)
  unordered-All P keep (suc fuel) (node ∷ queue) emitted out a h =
      let p = unordered-prepend fuel queue emitted node out h in
      subst (All P) (sym p.2) (
        a.0,
        unordered-All P keep fuel (push_all queue (unprocessed id emitted (children node)))
            (insert emitted (id node)) p.0
            (All-push_all P queue (unprocessed id emitted (children node)) a.1
              (All-unprocessed id P emitted (children node) (keep node a.0)))
            p.1,
      )

  module _ (cost : N → ℕ) where
    pub unordered-total :
        ((n : N) → 2 + total cost (children n) ≤ cost n)
        → (fuel : ℕ) (queue : List N) (emitted : BTreeSet ℕ) → total cost queue ≤ fuel
        → (out : List N) × (unordered id children fuel queue emitted ≡ some out)
    unfolding unordered unordered_next prepend total
    unordered-total dear fuel [] emitted h = ([], refl)
    unordered-total dear zero (node ∷ queue) emitted h = ground (arith, h, dear node)
    unordered-total dear (suc fuel) (node ∷ queue) emitted h =
        let rest =
          unordered-total dear fuel (push_all queue (unprocessed id emitted (children node)))
            (insert emitted (id node))
            (omega (
              arith,
              h,
              dear node,
              total-push_all cost queue (unprocessed id emitted (children node)),
              total-unprocessed id cost emitted (children node),
            )) in
        (node ∷ rest.0, rw (rest.1) refl)
