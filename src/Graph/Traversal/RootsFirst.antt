-- ===== src/Graph/Traversal/RootsFirst.antt =====
-- That the list of `flattened_roots_first` (ayatori/src/graph_representation/node_tree.rs), which is the
-- reverse of a list with the leaves first, has a node after every node that it is a child of.
use ayatori.Prelude.{ℕ, ◌≡◌, ◌⊎◌, inl, inr, true, false, List, [], ◌∷◌, All, subst, arith}
use ayatori.Collections.Order.{nat_ord}
use ayatori.Collections.BTreeSet.{BTreeSet, contains, insert}
use ayatori.Graph.Traversal.{IsMember, push_all}
use ayatori.Graph.Traversal.LeavesFirst.{IsLeavesFirst}
use ayatori.Graph.Traversal.Emitted.{AreEmitted, AreEmitted-extended, insert-Extends}
use ayatori.Graph.Traversal.Reached.{All-IsMember}

module _ {N : Type 0} where
  pub IsMember-push_all :
      (acc ns : List N) (n : N) → IsMember n (push_all acc ns) → IsMember n acc ⊎ IsMember n ns
  unfolding push_all
  IsMember-push_all acc [] n h = inl h
  IsMember-push_all acc (m ∷ ns) n h = elim (IsMember-push_all (m ∷ acc) ns n h) [
    | inl (inl p) ↦ inr (inl p)
    | inl (inr k) ↦ inl k
    | inr k ↦ inr (inr k)
  ]

  pub push_all-IsMember :
      (acc ns : List N) (n : N) → IsMember n acc ⊎ IsMember n ns → IsMember n (push_all acc ns)
  unfolding push_all
  push_all-IsMember acc [] n (inl h) = h
  push_all-IsMember acc [] n (inr h) = absurd h
  push_all-IsMember acc (m ∷ ns) n (inl h) = push_all-IsMember (m ∷ acc) ns n (inl (inr h))
  push_all-IsMember acc (m ∷ ns) n (inr (inl p)) = push_all-IsMember (m ∷ acc) ns n (inl (inl p))
  push_all-IsMember acc (m ∷ ns) n (inr (inr k)) = push_all-IsMember (m ∷ acc) ns n (inr k)

module _ {N : Type 0} (children : N → List N) where
  -- No node of the list has a child before it, nor itself for a child.
  abbrev pub IsRootsFirst : List N → Type 0
  IsRootsFirst [] = Unit
  IsRootsFirst (n ∷ ns) =
      ((p : N) → IsMember n (children p) → ¬ (IsMember p (n ∷ ns))) × IsRootsFirst ns

module _ {N : Type 0} (id : N → ℕ) (children : N → List N) where
  AreEmitted-All :
      (emitted : BTreeSet ℕ) (i : ℕ) (ns : List N)
      → All (λ p. AreEmitted id emitted (children p)) ns
      → All (λ p. AreEmitted id (insert emitted i) (children p)) ns
  AreEmitted-All emitted i [] a = tt
  AreEmitted-All emitted i (n ∷ ns) a = (
    AreEmitted-extended id emitted (insert emitted i) (children n) (insert-Extends emitted i) a.0,
    AreEmitted-All emitted i ns a.1,
  )

  -- A node that is not emitted yet is a child of none whose children are all emitted.
  no_child_ahead :
      (emitted : BTreeSet ℕ) (acc : List N) (n : N)
      → All (λ p. AreEmitted id emitted (children p)) acc
      → contains emitted (id n) ≡ false
      → AreEmitted id emitted (children n)
      → (p : N) → IsMember n (children p)
      → ¬ (IsMember p (n ∷ acc))
  no_child_ahead emitted acc n a fresh own p k (inl e) =
      let t =
        All-IsMember (λ c. contains emitted (id c) ≡ true) (children n) n own
          (subst (λ q. IsMember n (children q)) e k) in
      ground (arith, t, fresh)
  no_child_ahead emitted acc n a fresh own p k (inr m) =
      let t =
        All-IsMember (λ c. contains emitted (id c) ≡ true) (children p) n
          (All-IsMember (λ q. AreEmitted id emitted (children q)) acc p a m) k in
      ground (arith, t, fresh)

  pub push_all-IsRootsFirst :
      (emitted : BTreeSet ℕ) (acc ns : List N)
      → All (λ p. AreEmitted id emitted (children p)) acc
      → IsRootsFirst children acc
      → IsLeavesFirst id children emitted ns
      → IsRootsFirst children (push_all acc ns)
  unfolding push_all
  push_all-IsRootsFirst emitted acc [] a r h = r
  push_all-IsRootsFirst emitted acc (n ∷ ns) a r h =
      push_all-IsRootsFirst (insert emitted (id n)) (n ∷ acc) ns
        (
          AreEmitted-extended id emitted (insert emitted (id n)) (children n)
              (insert-Extends emitted (id n)) h.1,
          AreEmitted-All emitted (id n) acc a,
        )
        (no_child_ahead emitted acc n a h.0 h.1, r) h.2
