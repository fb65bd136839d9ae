-- ===== src/Graph/Traversal/Emitted.antt =====
-- The nodes that an iterator of ayatori/src/graph_representation/node_tree.rs has returned, as the set of
-- their addresses, and its queue.
use ayatori.Prelude.{
  ℕ, ◌+◌, ◌≤◌, ◌≡◌, inl, inr, refl, true, List, [], ◌∷◌, some, none, Option, arith, All, total,
  Bool-cases,
}
use ayatori.Collections.Order.{nat_ord}
use ayatori.Collections.BTreeSet.{BTreeSet, contains, insert, contains-insert}
use ayatori.Graph.Traversal.{push_all, prepend, unprocessed}

abbrev pub Extends : BTreeSet ℕ → BTreeSet ℕ → Type 0
Extends s t = (i : ℕ) → contains s i ≡ true → contains t i ≡ true

pub insert-Extends : (s : BTreeSet ℕ) (i : ℕ) → Extends s (insert s i)
insert-Extends s i j h = ground (arith, contains-insert s i j)

pub insert-contains : (s : BTreeSet ℕ) (i : ℕ) → contains (insert s i) i ≡ true
insert-contains s i = ground (arith, contains-insert s i i)

pub prepend-some :
    {N : Type 0} (n : N) (r : Option (List N)) (out : List N)
    → prepend n r ≡ some out
    → (rest : List N) × (r ≡ some rest) × (out ≡ n ∷ rest)
unfolding prepend
prepend-some n none out h = ground (arith, h)
prepend-some n (some rest) out h = (rest, refl, ground (arith, h))

pub total-push_all :
    {N : Type 0} (cost : N → ℕ) (queue ns : List N)
    → total cost (push_all queue ns) ≡ total cost queue + total cost ns
unfolding push_all total
total-push_all cost queue [] = omega arith
total-push_all cost queue (n ∷ ns) = omega (arith, total-push_all cost (n ∷ queue) ns)

pub All-push_all :
    {N : Type 0} (P : N → Type 0) (queue ns : List N)
    → All P queue
    → All P ns
    → All P (push_all queue ns)
unfolding push_all
All-push_all P queue [] a b = a
All-push_all P queue (n ∷ ns) a b = All-push_all P (n ∷ queue) ns (b.0, a) b.1

module _ {N : Type 0} (id : N → ℕ) where
  abbrev pub AreEmitted : BTreeSet ℕ → List N → Type 0
  AreEmitted emitted ns = All (λ n. contains emitted (id n) ≡ true) ns

  pub AreEmitted-extended :
      (s t : BTreeSet ℕ) (ns : List N) → Extends s t → AreEmitted s ns → AreEmitted t ns
  AreEmitted-extended s t [] h a = tt
  AreEmitted-extended s t (n ∷ ns) h a = (h (id n) a.0, AreEmitted-extended s t ns h a.1)

  -- The set at the end of an iteration that returns these nodes.
  abbrev pub emitted_after : BTreeSet ℕ → List N → BTreeSet ℕ
  emitted_after emitted [] = emitted
  emitted_after emitted (n ∷ ns) = emitted_after (insert emitted (id n)) ns

  pub emitted_after-Extends : (s : BTreeSet ℕ) (ns : List N) → Extends s (emitted_after s ns)
  emitted_after-Extends s [] i h = h
  emitted_after-Extends s (n ∷ ns) i h =
      emitted_after-Extends (insert s (id n)) ns i (insert-Extends s (id n) i h)

  pub push_all_emitted :
      (s : BTreeSet ℕ) (queue ns : List N) → AreEmitted s (push_all queue ns) → AreEmitted s queue
  unfolding push_all
  push_all_emitted s queue [] a = a
  push_all_emitted s queue (n ∷ ns) a = (push_all_emitted s (n ∷ queue) ns a).1

  pub pushed_emitted :
      (s : BTreeSet ℕ) (queue ns : List N) → AreEmitted s (push_all queue ns) → AreEmitted s ns
  unfolding push_all
  pushed_emitted s queue [] a = tt
  pushed_emitted s queue (n ∷ ns) a =
      ((push_all_emitted s (n ∷ queue) ns a).0, pushed_emitted s (n ∷ queue) ns a)

  -- What is not left over was emitted before, or is among what is left over.
  pub unprocessed-AreEmitted :
      (s t : BTreeSet ℕ) (ns : List N)
      → Extends s t
      → AreEmitted t (unprocessed id s ns)
      → AreEmitted t ns
  unfolding unprocessed
  unprocessed-AreEmitted s t [] h a = tt
  unprocessed-AreEmitted s t (n ∷ ns) h a = elim (Bool-cases (contains s (id n))) [
    | inl e ↦ (h (id n) e, unprocessed-AreEmitted s t ns h (rw e at a))
    | inr e ↦ let b = (rw e at a) in (b.0, unprocessed-AreEmitted s t ns h b.1)
  ]

  pub unprocessed_none : (s : BTreeSet ℕ) (ns : List N) → AreEmitted s ns → unprocessed id s ns ≡ []
  unfolding unprocessed
  unprocessed_none s [] a = refl
  unprocessed_none s (n ∷ ns) a = rw (a.0) (unprocessed_none s ns a.1)

  pub total-unprocessed :
      (cost : N → ℕ) (emitted : BTreeSet ℕ) (ns : List N)
      → total cost (unprocessed id emitted ns) ≤ total cost ns
  unfolding unprocessed total
  total-unprocessed cost emitted [] = omega arith
  total-unprocessed cost emitted (n ∷ ns) = ground (arith, total-unprocessed cost emitted ns)

  pub All-unprocessed :
      (P : N → Type 0) (emitted : BTreeSet ℕ) (ns : List N)
      → All P ns
      → All P (unprocessed id emitted ns)
  unfolding unprocessed
  All-unprocessed P emitted [] a = tt
  All-unprocessed P emitted (n ∷ ns) a = elim (Bool-cases (contains emitted (id n))) [
    | inl e ↦ rw e (All-unprocessed P emitted ns a.1)
    | inr e ↦ rw e (a.0, All-unprocessed P emitted ns a.1)
  ]
