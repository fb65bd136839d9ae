-- ===== src/Graph/Traversal/Reached/Below.antt =====
-- What the unordered iterator of ayatori/src/graph_representation/node_tree.rs returns, from several roots.
use ayatori.Prelude.{ℕ, ◌≡◌, ◌↔◌, inl, inr, true, List, [], some, All, subst}
use ayatori.Collections.Order.{nat_ord}
use ayatori.Collections.BTreeSet.{contains}
use ayatori.Graph.Traversal.{Reach, here, below, IsMember, push_all, unordered}
use ayatori.Graph.Traversal.Emitted.{emitted_after, AreEmitted, All-push_all, pushed_emitted}
use ayatori.Graph.Traversal.Unordered.{unordered_complete, unordered-All}
use ayatori.Graph.Traversal.Reached.{All-IsMember, All-of_members, none_emitted, emitted_node}

module _ {N : Type 0} (children : N → List N) where
  -- The nodes below some of the roots.
  abbrev pub IsBelow : List N → N → Type 0
  IsBelow roots n = (root : N) × IsMember root roots × Reach children root n

  pub Reach-Reach : (k m n : N) → Reach children k m → Reach children m n → Reach children k n
  Reach-Reach k m _ r here = r
  Reach-Reach k m n r (below {m = j} s c) = below (Reach-Reach k m j r s) c

module _ {N : Type 0} (id : N → ℕ) (children : N → List N) (roots : List N) where
  unordered-IsBelow_from :
      ((m n : N) → IsBelow children roots m → IsBelow children roots n → id m ≡ id n → m ≡ n)
      → (out : List N) → All (IsBelow children roots) out
      → AreEmitted id (emitted_after id [] out) roots
      → All (λ n. AreEmitted id (emitted_after id [] out) (children n)) out
      → (root n : N) → IsMember root roots
      → Reach children root n
      → IsMember n out
  unordered-IsBelow_from distinct out found started closed root n m r = reached n r
    where
      member :
          (n : N)
          → Reach children root n
          → contains (emitted_after id [] out) (id n) ≡ true
          → IsMember n out
      member n r c = elim (emitted_node id [] out (id n) c) [
        | inl d ↦ absurd (none_emitted (id n) d)
        | inr k ↦
            subst (λ x. IsMember x out)
              (distinct k.0 n (All-IsMember (IsBelow children roots) out k.0 found k.1) (root, m, r)
                k.2)
              k.1
      ]

      reached : (n : N) → Reach children root n → IsMember n out
      reached _ here = member root here (
          All-IsMember (λ j. contains (emitted_after id [] out) (id j) ≡ true) roots root started m)
      reached n (below {m = j} r c) = member n (below r c) (
          All-IsMember (λ k. contains (emitted_after id [] out) (id k) ≡ true) (children j) n
            (All-IsMember (λ k. AreEmitted id (emitted_after id [] out) (children k)) out j closed
              (reached j r))
            c)

  pub unordered-IsBelow :
      ((m n : N) → IsBelow children roots m → IsBelow children roots n → id m ≡ id n → m ≡ n)
      → (fuel : ℕ) (out : List N) → unordered id children fuel (push_all [] roots) [] ≡ some out
      → (n : N) → IsMember n out ↔ IsBelow children roots n
  unordered-IsBelow distinct fuel out h n =
      let complete = unordered_complete id children fuel (push_all [] roots) [] out h in
      let found =
        unordered-All id children (IsBelow children roots)
          (λ j b.
            All-of_members (IsBelow children roots) (children j) (λ k c. (b.0, b.1, below b.2 c)))
          fuel (push_all [] roots) [] out
          (All-push_all (IsBelow children roots) [] roots tt
            (All-of_members (IsBelow children roots) roots (λ j m. (j, m, here))))
          h in
      (
        All-IsMember (IsBelow children roots) out n found,
        λ b.
            unordered-IsBelow_from distinct out found
              (pushed_emitted id (emitted_after id [] out) [] roots complete.0) complete.1 b.0 n b.1
              b.2,
      )
