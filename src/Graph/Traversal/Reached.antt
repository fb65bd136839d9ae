-- ===== src/Graph/Traversal/Reached.antt =====
-- That an iterator of ayatori/src/graph_representation/node_tree.rs returns the nodes below its root and
-- no others, where an identifier stands for one node.
pub mod Below
use ayatori.Prelude.{
  ℕ, zero, suc, ◌≡◌, ◌⊎◌, ◌↔◌, inl, inr, refl, true, List, [], ◌∷◌, some, arith, All, ◌∙◌, sym,
  subst,
}
use ayatori.Collections.Order.{nat_ord}
use ayatori.Collections.BTreeSet.{BTreeSet, contains, insert, contains-insert}
use ayatori.Graph.Traversal.{
  Reach, here, below, IsMember, push_all, leaves_first, unordered, unprocessed,
}
use ayatori.Graph.Traversal.LeavesFirst.{
  IsLeavesFirst, leaves_first-Round, leaves_first-IsLeavesFirst, leaves_first_complete,
}
use ayatori.Graph.Traversal.Emitted.{
  AreEmitted, AreEmitted-extended, emitted_after, emitted_after-Extends, insert-Extends,
  prepend-some, All-push_all, All-unprocessed,
}
use ayatori.Graph.Traversal.Unordered.{unordered_complete, unordered-All}

pub All-IsMember :
    {N : Type 0} (P : N → Type 0) (ns : List N) (n : N) → All P ns → IsMember n ns → P n
All-IsMember P [] n a m = absurd m
All-IsMember P (x ∷ ns) n a (inl p) = subst P (sym p) a.0
All-IsMember P (x ∷ ns) n a (inr m) = All-IsMember P ns n a.1 m

pub All-of_members :
    {N : Type 0} (P : N → Type 0) (ns : List N) → ((n : N) → IsMember n ns → P n) → All P ns
All-of_members P [] h = tt
All-of_members P (n ∷ ns) h = (h n (inl refl), All-of_members P ns (λ m k. h m (inr k)))

pub none_emitted : (i : ℕ) → ¬ (contains [] i ≡ true)
unfolding contains
none_emitted i h = ground (arith, h)

module _ {N : Type 0} (id : N → ℕ) where
  emitted_node :
      (s : BTreeSet ℕ) (out : List N) (i : ℕ)
      → contains (emitted_after id s out) i ≡ true
      → (contains s i ≡ true) ⊎ ((n : N) × IsMember n out × (id n ≡ i))
  emitted_node s [] i h = inl h
  emitted_node s (n ∷ out) i h = elim (emitted_node (insert s (id n)) out i h) [
    | inr m ↦ inr (m.0, inr m.1, m.2)
    | inl c ↦ elim (nat_ord.dec i (id n)) [
      | yes p ↦ inr (n, inl refl, sym p)
      | no p ↦ inl (ground (arith, c, contains-insert s (id n) i, p))
    ]
  ]

module _ {N : Type 0} (id : N → ℕ) (children : N → List N) where
  -- What the children of a node share with it, all that is returned shares with the queue.
  pub leaves_first-All :
      (P : N → Type 0)
      → ((n : N) → P n → All P (children n))
      → (fuel : ℕ) (queue : List N) (emitted : BTreeSet ℕ) (out : List N) → All P queue
      → leaves_first id children fuel queue emitted ≡ some out
      → All P out
  unfolding leaves_first
  leaves_first-All P keep fuel [] emitted out a h = subst (All P) {x = []} (ground (arith, h)) tt
  leaves_first-All P keep zero (node ∷ queue) emitted out a h = ground (arith, h)
  leaves_first-All P keep (suc fuel) (node ∷ queue) emitted out a h =
      elim (leaves_first-Round id children fuel queue emitted node) [
        | inl r ↦ leaves_first-All P keep fuel queue emitted out a.1 (sym r.1 ∙ h)
        | inr (inl r) ↦
            let p =
              prepend-some node (leaves_first id children fuel queue (insert emitted (id node))) out
                (sym r.2 ∙ h) in
            subst (All P) (sym p.2)
              (a.0, leaves_first-All P keep fuel queue (insert emitted (id node)) p.0 a.1 p.1)
        | inr (inr r) ↦
            leaves_first-All P keep fuel
              (push_all (node ∷ queue) (unprocessed id emitted (children node))) emitted out
              (All-push_all P (node ∷ queue) (unprocessed id emitted (children node)) a
                (All-unprocessed id P emitted (children node) (keep node a.0)))
              (sym r.1 ∙ h)
      ]

module _ {N : Type 0} (id : N → ℕ) (children : N → List N) (root : N) where
  -- No two nodes below the root share an identifier.
  abbrev pub HasDistinctIds : Type 0
  HasDistinctIds = (m n : N) → Reach children root m → Reach children root n → id m ≡ id n → m ≡ n

  pub children_reached : (n : N) → Reach children root n → All (Reach children root) (children n)
  children_reached n r = All-of_members (Reach children root) (children n) (λ m k. below r k)

  -- What is returned is below the root, and its children and the root are emitted.
  abbrev IsClosed : List N → Type 0
  IsClosed out =
      All (Reach children root) out
      × (contains (emitted_after id [] out) (id root) ≡ true)
      × All (λ n. AreEmitted id (emitted_after id [] out) (children n)) out

  IsMember-of_emitted :
      HasDistinctIds
      → (out : List N) → IsClosed out
      → (n : N) → Reach children root n
      → contains (emitted_after id [] out) (id n) ≡ true
      → IsMember n out
  IsMember-of_emitted distinct out closed n r c = elim (emitted_node id [] out (id n) c) [
    | inl d ↦ absurd (none_emitted (id n) d)
    | inr m ↦
        subst (λ k. IsMember k out)
          (distinct m.0 n (All-IsMember (Reach children root) out m.0 closed.0 m.1) r m.2) m.1
  ]

  reached-IsMember :
      HasDistinctIds
      → (out : List N) → IsClosed out
      → (n : N) → Reach children root n
      → IsMember n out
  reached-IsMember distinct out closed _ here =
      IsMember-of_emitted distinct out closed root here closed.1
  reached-IsMember distinct out closed n (below {m = m} r k) =
      let found = reached-IsMember distinct out closed m r in
      let emitted =
        All-IsMember (λ j. AreEmitted id (emitted_after id [] out) (children j)) out m closed.2
          found in
      IsMember-of_emitted distinct out closed n (below r k) (
        All-IsMember (λ j. contains (emitted_after id [] out) (id j) ≡ true) (children m) n emitted
          k)

  abbrev pub ReturnsReached : List N → Type 0
  ReturnsReached out = (n : N) → IsMember n out ↔ Reach children root n

  closed-ReturnsReached : HasDistinctIds → (out : List N) → IsClosed out → ReturnsReached out
  closed-ReturnsReached distinct out closed n =
      (All-IsMember (Reach children root) out n closed.0, reached-IsMember distinct out closed n)

  pub unordered-ReturnsReached :
      HasDistinctIds
      → (fuel : ℕ) (out : List N) → unordered id children fuel (root ∷ []) [] ≡ some out
      → ReturnsReached out
  unordered-ReturnsReached distinct fuel out h =
      let complete = unordered_complete id children fuel (root ∷ []) [] out h in
      closed-ReturnsReached distinct out (
        unordered-All id children (Reach children root) children_reached fuel (root ∷ []) [] out
            (here, tt) h,
        complete.0.0,
        complete.1,
      )

  leaves_first-children :
      (emitted : BTreeSet ℕ) (out : List N)
      → IsLeavesFirst id children emitted out
      → All (λ n. AreEmitted id (emitted_after id emitted out) (children n)) out
  leaves_first-children emitted [] h = tt
  leaves_first-children emitted (n ∷ out) h = (
    AreEmitted-extended id emitted (emitted_after id (insert emitted (id n)) out) (children n)
        (λ i x.
          emitted_after-Extends id (insert emitted (id n)) out i
            (insert-Extends emitted (id n) i x))
        h.1,
    leaves_first-children (insert emitted (id n)) out h.2,
  )

  pub leaves_first-ReturnsReached :
      HasDistinctIds
      → (fuel : ℕ) (out : List N) → leaves_first id children fuel (root ∷ []) [] ≡ some out
      → ReturnsReached out
  leaves_first-ReturnsReached distinct fuel out h = closed-ReturnsReached distinct out (
    leaves_first-All id children (Reach children root) children_reached fuel (root ∷ []) [] out
        (here, tt) h,
    (leaves_first_complete id children fuel (root ∷ []) [] out h).0,
    leaves_first-children [] out (leaves_first-IsLeavesFirst id children fuel (root ∷ []) [] out h),
  )
