-- ===== src/Graph/Traversal/LeavesFirst.antt =====
-- What `LeavesFirstIterator` of ayatori/src/graph_representation/node_tree.rs promises: each node once,
-- all its children before it, and everything below the nodes in the queue.
use ayatori.Prelude.{
  ℕ, zero, suc, ◌+◌, ◌≤◌, ◌≡◌, ◌≢◌, ◌⊎◌, inl, inr, refl, true, false, List, [], ◌∷◌, some, Option,
  arith, total, Bool-cases, List-cases, ◌∙◌, sym, subst,
}
use ayatori.Collections.Order.{nat_ord}
use ayatori.Collections.BTreeSet.{BTreeSet, contains, insert}
use ayatori.Graph.Traversal.{
  push_all, prepend, unprocessed, visit, leaves_first_round, emit, leaves_first,
}
use ayatori.Graph.Traversal.Emitted.{
  AreEmitted, AreEmitted-extended, Extends, emitted_after, emitted_after-Extends, insert-Extends,
  insert-contains, prepend-some, push_all_emitted, total-unprocessed, unprocessed-AreEmitted,
  unprocessed_none,
}

module _ {N : Type 0} (id : N → ℕ) (children : N → List N) where
  -- No node stands twice, none was emitted before, and the children of each are emitted before it.
  abbrev pub IsLeavesFirst : BTreeSet ℕ → List N → Type 0
  IsLeavesFirst emitted [] = Unit
  IsLeavesFirst emitted (n ∷ ns) =
      (contains emitted (id n) ≡ false)
      × AreEmitted id emitted (children n)
      × IsLeavesFirst (insert emitted (id n)) ns

  -- A round skips the node, returns it, or puts it off until its children are done.
  abbrev pub Round : ℕ → List N → BTreeSet ℕ → N → Option (List N) → Type 0
  Round fuel queue emitted node out =
      ((contains emitted (id node) ≡ true) × (out ≡ leaves_first id children fuel queue emitted))
      ⊎ (((contains emitted (id node) ≡ false)
            × AreEmitted id emitted (children node)
            × (out ≡ prepend node (leaves_first id children fuel queue (insert emitted (id node)))))
          ⊎ ((unprocessed id emitted (children node) ≢ [])
              × (out
                  ≡ leaves_first id children fuel
                      (push_all (node ∷ queue) (unprocessed id emitted (children node))) emitted)))

  pub leaves_first-Round :
      (fuel : ℕ) (queue : List N) (emitted : BTreeSet ℕ) (node : N)
      → Round fuel queue emitted node (leaves_first id children (suc fuel) (node ∷ queue) emitted)
  unfolding leaves_first leaves_first_round visit emit
  leaves_first-Round fuel queue emitted node = elim (Bool-cases (contains emitted (id node))) [
    | inl e ↦ inl (e, rw e refl)
    | inr e ↦ elim (List-cases (unprocessed id emitted (children node))) [
      | inl p ↦ inr (
          inl (
            e,
            unprocessed-AreEmitted id emitted emitted (children node) (λ i h. h) (rw p tt),
            rw (e, p) refl,
          ))
      | inr p ↦ inr (inr (λ q. ground (arith, p.2, q), rw (e, p.2) refl))
    ]
  ]

  pub leaves_first-IsLeavesFirst :
      (fuel : ℕ) (queue : List N) (emitted : BTreeSet ℕ) (out : List N)
      → leaves_first id children fuel queue emitted ≡ some out
      → IsLeavesFirst emitted out
  unfolding leaves_first
  leaves_first-IsLeavesFirst fuel [] emitted out h =
      subst (IsLeavesFirst emitted) {x = []} (ground (arith, h)) tt
  leaves_first-IsLeavesFirst zero (node ∷ queue) emitted out h = ground (arith, h)
  leaves_first-IsLeavesFirst (suc fuel) (node ∷ queue) emitted out h =
      elim (leaves_first-Round fuel queue emitted node) [
        | inl r ↦ leaves_first-IsLeavesFirst fuel queue emitted out (sym r.1 ∙ h)
        | inr (inl r) ↦
            let p =
              prepend-some node (leaves_first id children fuel queue (insert emitted (id node))) out
                (sym r.2 ∙ h) in
            subst (IsLeavesFirst emitted) (sym p.2)
              (r.0, r.1, leaves_first-IsLeavesFirst fuel queue (insert emitted (id node)) p.0 p.1)
        | inr (inr r) ↦
            leaves_first-IsLeavesFirst fuel
              (push_all (node ∷ queue) (unprocessed id emitted (children node))) emitted out
              (sym r.1 ∙ h)
      ]

  -- All that the queue holds is emitted in the end.
  pub leaves_first_complete :
      (fuel : ℕ) (queue : List N) (emitted : BTreeSet ℕ) (out : List N)
      → leaves_first id children fuel queue emitted ≡ some out
      → AreEmitted id (emitted_after id emitted out) queue
  unfolding leaves_first
  leaves_first_complete fuel [] emitted out h = tt
  leaves_first_complete zero (node ∷ queue) emitted out h = ground (arith, h)
  leaves_first_complete (suc fuel) (node ∷ queue) emitted out h =
      elim (leaves_first-Round fuel queue emitted node) [
        | inl r ↦ (
          emitted_after-Extends id emitted out (id node) r.0,
          leaves_first_complete fuel queue emitted out (sym r.1 ∙ h),
        )
        | inr (inl r) ↦
            let p =
              prepend-some node (leaves_first id children fuel queue (insert emitted (id node))) out
                (sym r.2 ∙ h) in
            subst (λ ns. AreEmitted id (emitted_after id emitted ns) (node ∷ queue)) (sym p.2)
              (
                emitted_after-Extends id (insert emitted (id node)) p.0 (id node)
                    (insert-contains emitted (id node)),
                leaves_first_complete fuel queue (insert emitted (id node)) p.0 p.1,
              )
        | inr (inr r) ↦
            push_all_emitted id (emitted_after id emitted out) (node ∷ queue)
              (unprocessed id emitted (children node))
              (leaves_first_complete fuel
                (push_all (node ∷ queue) (unprocessed id emitted (children node))) emitted out
                (sym r.1 ∙ h))
      ]

  -- An iteration comes to an end.
  abbrev pub Returns : ℕ → List N → BTreeSet ℕ → Type 0
  Returns fuel queue emitted =
      (out : List N) × (leaves_first id children fuel queue emitted ≡ some out)

  Returns-prepend :
      (fuel : ℕ) (queue : List N) (emitted : BTreeSet ℕ) (n : N)
      → Returns fuel queue emitted
      → (out : List N) × (prepend n (leaves_first id children fuel queue emitted) ≡ some out)
  unfolding prepend
  Returns-prepend fuel queue emitted n r = (n ∷ r.0, rw (r.1) refl)

  -- With `least` steps of fuel the rest of the queue is done, once the nodes were emitted.
  abbrev Continues : ℕ → List N → BTreeSet ℕ → List N → Type 0
  Continues least queue emitted ns =
      (t : BTreeSet ℕ) (fuel : ℕ)
      → Extends emitted t
      → AreEmitted id t ns
      → least ≤ fuel
      → Returns fuel queue t

  module _ (cost : N → ℕ) where
    -- `bound` steps are enough for any node that costs no more.
    abbrev Processes : ℕ → Type 0
    Processes bound =
        (n : N) (least fuel : ℕ) (queue : List N) (emitted : BTreeSet ℕ)
        → cost n ≤ bound
        → Continues least queue emitted (n ∷ [])
        → least + cost n ≤ fuel
        → Returns fuel (n ∷ queue) emitted

    Processes-all :
        (bound : ℕ)
        → Processes bound
        → (ns : List N) (least fuel : ℕ) (queue : List N) (emitted : BTreeSet ℕ)
        → total cost ns ≤ bound
        → Continues least queue emitted ns
        → least + total cost ns ≤ fuel
        → Returns fuel (push_all queue ns) emitted
    unfolding push_all total
    Processes-all bound process [] least fuel queue emitted c k f =
        k emitted fuel (λ i h. h) tt (omega (arith, f))
    Processes-all bound process (n ∷ ns) least fuel queue emitted c k f =
        Processes-all bound process ns (least + cost n) fuel (n ∷ queue) emitted (omega (arith, c))
          (λ t fuel' x a b.
            process n least fuel' queue t (omega (arith, c))
              (λ u fuel'' y d e.
                k u fuel'' (λ i h. y i (x i h)) (d.0, AreEmitted-extended id t u ns y a) e)
              b)
          (omega (arith, f))

    -- A node that was put off is skipped or returned when its children are done.
    again :
        (n : N) (least : ℕ) (queue : List N) (emitted : BTreeSet ℕ)
        → Continues least queue emitted (n ∷ [])
        → Continues (suc least) (n ∷ queue) emitted (unprocessed id emitted (children n))
    again n least queue emitted k t zero x a f = ground (arith, f)
    again n least queue emitted k t (suc fuel) x a f = elim (leaves_first-Round fuel queue t n) [
      | inl r ↦ let p = k t fuel x (r.0, tt) (omega (arith, f)) in (p.0, r.1 ∙ p.1)
      | inr (inl r) ↦
          let p = Returns-prepend fuel queue (insert t (id n)) n (
            k (insert t (id n)) fuel (λ i h. insert-Extends t (id n) i (x i h))
              (insert-contains t (id n), tt) (omega (arith, f))) in
          (p.0, r.2 ∙ p.1)
      | inr (inr r) ↦ absurd (
          r.0 (
            unprocessed_none id t (children n)
              (unprocessed-AreEmitted id emitted t (children n) x a)))
    ]

    Processes-step :
        ((n : N) → 2 + total cost (children n) ≤ cost n)
        → (bound : ℕ) → Processes bound
        → Processes (suc bound)
    Processes-step dear bound process n least zero queue emitted c k f = ground (arith, f, dear n)
    Processes-step dear bound process n least (suc fuel) queue emitted c k f =
        elim (leaves_first-Round fuel queue emitted n) [
          | inl r ↦
              let p = k emitted fuel (λ i h. h) (r.0, tt) (omega (arith, f, dear n)) in
              (p.0, r.1 ∙ p.1)
          | inr (inl r) ↦
              let p = Returns-prepend fuel queue (insert emitted (id n)) n (
                k (insert emitted (id n)) fuel (insert-Extends emitted (id n))
                  (insert-contains emitted (id n), tt) (omega (arith, f, dear n))) in
              (p.0, r.2 ∙ p.1)
          | inr (inr r) ↦
              let p =
                Processes-all bound process (unprocessed id emitted (children n)) (suc least) fuel
                  (n ∷ queue) emitted
                  (omega (arith, c, dear n, total-unprocessed id cost emitted (children n)))
                  (again n least queue emitted k)
                  (omega (arith, f, dear n, total-unprocessed id cost emitted (children n))) in
              (p.0, r.1 ∙ p.1)
        ]

    processes : ((n : N) → 2 + total cost (children n) ≤ cost n) → (bound : ℕ) → Processes bound
    processes dear zero = λ n least fuel queue emitted c k f. ground (arith, c, dear n)
    processes dear (suc bound) = Processes-step dear bound (processes dear bound)

    -- Where a node costs two steps and its children, an iteration that has the costs of the queue as
    -- fuel comes to an end.
    pub leaves_first-total :
        ((n : N) → 2 + total cost (children n) ≤ cost n)
        → (ns : List N) (fuel : ℕ) → total cost ns ≤ fuel
        → Returns fuel (push_all [] ns) []
    unfolding leaves_first
    leaves_first-total dear ns fuel h =
        Processes-all (total cost ns) (processes dear (total cost ns)) ns 0 fuel [] [] (omega arith)
          (λ t f x a b. ([], refl)) (omega (arith, h))
