-- ===== src/Graph/AnyNode/Subtree/Reproduced.antt =====
-- What `reproducibility` of ayatori/src/graph_representation/node_tree.rs reports of the graph below a node.
use ayatori.Prelude.{
  String, Bool, ◌≡◌, ◌⊎◌, ◌↔◌, inl, inr, refl, sym, ap, ◌∙◌, true, false, List, [], ◌∷◌, ◌++◌,
  arith, Bool-cases, subst, if_pos,
}
use ayatori.Collections.Order.{string_ord}
use ayatori.Collections.BTreeSet.{BTreeSet, contains}
use ayatori.Entities.Tags.{FullName, full_name_ord}
use ayatori.Entities.Params.{SessionParameters}
use ayatori.Graph.Traversal.{Reach, here, below, IsMember}
use ayatori.Graph.Traversal.Reached.Below.{IsBelow, Reach-Reach}
use ayatori.Graph.AnyNode.{
  AnyNode, NodeId, compute_mapping, receive, scalar_argument, with_reveal, arg_values, all_args,
  verification_args,
}
use ayatori.Graph.AnyNode.Tree.Order.{unordered_args_from-IsBelow}
use ayatori.Graph.AnyNode.Subtree.{
  reproducibility, available, not_available, reproduced_subnodes, node_reproducible,
}
use ayatori.Graph.AnyNode.Subtree.Needs.{
  each_node, some_node, is_argument, is_reception_of, reproducibility_lem,
}
use ayatori.Graph.AnyNode.Subtree.Blocking.{
  IsBlocking, IsBlocking-cases, HasDistinctArgs, flattened_args_only-Reach,
}

append-IsMember_right :
    {N : Type 0} (xs ys : List N) (n : N) → IsMember n ys → IsMember n (xs ++ ys)
append-IsMember_right [] ys n m = m
append-IsMember_right (x ∷ xs) ys n m = inr (append-IsMember_right xs ys n m)

module _ {P : SessionParameters} where
  each_node-IsMember :
      (test : AnyNode P → Bool) (nodes : List (AnyNode P))
      → each_node test nodes ≡ true
      → (n : AnyNode P) → IsMember n nodes
      → test n ≡ true
  unfolding each_node
  each_node-IsMember test [] h n m = absurd m
  each_node-IsMember test (x ∷ nodes) h n (inl p) = ap test p ∙ ground (arith, h)
  each_node-IsMember test (x ∷ nodes) h n (inr m) =
      each_node-IsMember test nodes (ground (arith, h)) n m

  failing_node :
      (test : AnyNode P → Bool) (nodes : List (AnyNode P))
      → each_node test nodes ≡ false
      → (n : AnyNode P) × IsMember n nodes × (test n ≡ false)
  unfolding each_node
  failing_node test [] h = ground (arith, h)
  failing_node test (x ∷ nodes) h = elim (Bool-cases (test x)) [
    | inr e ↦ (x, inl refl, e)
    | inl e ↦
        let rest = failing_node test nodes (ground (arith, h, e)) in (rest.0, inr rest.1, rest.2)
  ]

  some_node-IsMember :
      (test : AnyNode P → Bool) (nodes : List (AnyNode P))
      → (some_node test nodes ≡ true) ↔ ((n : AnyNode P) × IsMember n nodes × (test n ≡ true))
  unfolding some_node
  some_node-IsMember test [] = (λ h. ground (arith, h), λ h. absurd h.1)
  some_node-IsMember test (x ∷ nodes) =
      let rest = some_node-IsMember test nodes in
      (
        λ h. elim (Bool-cases (test x)) [
          | inl e ↦ (x, inl refl, e)
          | inr e ↦ let r = rest.0 (ground (arith, h, e)) in (r.0, inr r.1, r.2)
        ],
        λ h. elim h.1 [
          | inl p ↦ ground (arith, ap test (sym p) ∙ h.2)
          | inr m ↦ ground (arith, rest.1 (h.0, m, h.2))
        ],
      )

  is_argument_iff :
      (name : String) (n : AnyNode P)
      → is_argument name n ≡ true
      → (i : NodeId) × (tag : FullName) × (n ≡ scalar_argument i tag name)
  unfolding is_argument
  is_argument_iff name (scalar_argument i tag m) h = elim (string_ord.dec name m) [
    | yes p ↦ (i, tag, ap (λ x. scalar_argument i tag x) (sym p))
    | no q ↦ ground (arith, h, q)
  ]
  is_argument_iff name n h = ground (arith, h)

  is_argument-scalar_argument :
      (i : NodeId) (tag : FullName) (name : String) (n : AnyNode P)
      → n ≡ scalar_argument i tag name
      → is_argument name n ≡ true
  unfolding is_argument
  is_argument-scalar_argument i tag name n e =
      ap (is_argument name) e ∙ if_pos (string_ord.dec name name) refl true false

  is_reception_of_iff :
      (name : FullName) (n : AnyNode P)
      → is_reception_of name n ≡ true
      → (i : NodeId) × (tag : FullName) × (n ≡ receive i tag name)
  unfolding is_reception_of
  is_reception_of_iff name (receive i tag m) h = elim (full_name_ord.dec name m) [
    | yes p ↦ (i, tag, ap (λ x. receive i tag x) (sym p))
    | no q ↦ ground (arith, h, q)
  ]
  is_reception_of_iff name n h = ground (arith, h)

  is_reception_of-receive :
      (i : NodeId) (tag name : FullName) (n : AnyNode P)
      → n ≡ receive i tag name
      → is_reception_of name n ≡ true
  unfolding is_reception_of
  is_reception_of-receive i tag name n e =
      ap (is_reception_of name) e ∙ if_pos (full_name_ord.dec name name) refl true false

  -- The nodes that are computed to check the node again: those below it by arguments, or, for a node that
  -- reveals its secrets, below the arguments of its verification.
  unfoldable pub IsReproduced : AnyNode P → AnyNode P → Type 0
  IsReproduced (compute_mapping i tag args (with_reveal function verification reads) nodes) n =
      IsBelow all_args (arg_values reads) n
  IsReproduced root n = Reach all_args root n

  IsReproduced-Reach : (root n : AnyNode P) → IsReproduced root n → Reach all_args root n
  unfolding IsReproduced all_args verification_args
  IsReproduced-Reach (compute_mapping i tag args (with_reveal function verification reads) nodes) n
        r =
      Reach-Reach all_args
        (compute_mapping i tag args (with_reveal function verification reads) nodes) r.0 n
        (below here (append-IsMember_right (arg_values args) (arg_values reads) r.0 r.1)) r.2
  IsReproduced-Reach root n r = r

  reproduced_subnodes-IsReproduced :
      (root : AnyNode P)
      → HasDistinctArgs root
      → (n : AnyNode P) → IsMember n (reproduced_subnodes root) ↔ IsReproduced root n
  unfolding IsReproduced reproduced_subnodes
  reproduced_subnodes-IsReproduced
        (compute_mapping i tag args (with_reveal function verification reads) nodes) distinct n =
      let root = compute_mapping i tag args (with_reveal function verification reads) nodes in
      unordered_args_from-IsBelow (arg_values reads)
        (λ j k p q e. distinct j k (IsReproduced-Reach root j p) (IsReproduced-Reach root k q) e) n
  reproduced_subnodes-IsReproduced root distinct n = flattened_args_only-Reach root distinct n

  distinct_below :
      (root n : AnyNode P) → HasDistinctArgs root → IsReproduced root n → HasDistinctArgs n
  distinct_below root n distinct r j k p q e =
      let to = IsReproduced-Reach root n r in
      distinct j k (Reach-Reach all_args root n j to p) (Reach-Reach all_args root n k to q) e

  arguments_lem :
      (root : AnyNode P)
      → HasDistinctArgs root
      → (name : String)
      → (some_node (is_argument name) (reproduced_subnodes root) ≡ true)
        ↔ ((i : NodeId) × (tag : FullName) × IsReproduced root (scalar_argument i tag name))
  arguments_lem root distinct name =
      let found = some_node-IsMember (is_argument name) (reproduced_subnodes root) in
      let below_root = reproduced_subnodes-IsReproduced root distinct in
      (
        λ h.
            let r = found.0 h in
            let a = is_argument_iff name r.0 r.2 in
            (a.0, a.1, subst (IsReproduced root) a.2 ((below_root r.0).0 r.1)),
        λ r. found.1 (
          scalar_argument r.0 r.1 name,
          (below_root (scalar_argument r.0 r.1 name)).1 r.2,
          is_argument-scalar_argument r.0 r.1 name (scalar_argument r.0 r.1 name) refl,
        ),
      )

  messages_lem :
      (root : AnyNode P)
      → HasDistinctArgs root
      → (name : FullName)
      → (some_node (is_reception_of name) (reproduced_subnodes root) ≡ true)
        ↔ ((i : NodeId) × (tag : FullName) × IsReproduced root (receive i tag name))
  messages_lem root distinct name =
      let found = some_node-IsMember (is_reception_of name) (reproduced_subnodes root) in
      let below_root = reproduced_subnodes-IsReproduced root distinct in
      (
        λ h.
            let r = found.0 h in
            let a = is_reception_of_iff name r.0 r.2 in
            (a.0, a.1, subst (IsReproduced root) a.2 ((below_root r.0).0 r.1)),
        λ r. found.1 (
          receive r.0 r.1 name,
          (below_root (receive r.0 r.1 name)).1 r.2,
          is_reception_of-receive r.0 r.1 name (receive r.0 r.1 name) refl,
        ),
      )

  -- Where no two nodes below a node by arguments have the same address: the node cannot be reproduced if
  -- some node that is computed to check it again draws random bytes, signs, or collects what depends on
  -- received messages. Otherwise it can, and that takes the arguments and the messages which the
  -- argument nodes and receptions among the nodes computed have the names of, and no others. The nodes
  -- computed are those below it by arguments, or, if it reveals its secrets on an error, those below the
  -- arguments of its verification.
  pub reproducibility-cases :
      (root : AnyNode P)
      → HasDistinctArgs root
      → ((n : AnyNode P) × IsReproduced root n
          × IsBlocking n
          × (reproducibility root ≡ not_available))
        ⊎ ((arguments : BTreeSet String) × (messages : BTreeSet FullName) × (reproducibility root
              ≡ available arguments messages)
            × ¬ ((n : AnyNode P) × IsReproduced root n × IsBlocking n)
            × ((name : String)
                → (contains arguments name ≡ true) ↔ (
                    (i : NodeId) × (tag : FullName) × IsReproduced root
                      (scalar_argument i tag name)))
            × ((name : FullName)
                → (contains messages name ≡ true)
                  ↔ ((i : NodeId) × (tag : FullName) × IsReproduced root (receive i tag name))))
  reproducibility-cases root distinct =
      let below_root = reproduced_subnodes-IsReproduced root distinct in
      elim (reproducibility_lem root) [
        | inl (h, e) ↦
            let f = failing_node node_reproducible (reproduced_subnodes root) h in
            let r = (below_root f.0).0 f.1 in
            elim (IsBlocking-cases f.0 (distinct_below root f.0 distinct r)) [
              | inl (yes_it_is, other) ↦ absurd (ground (arith, f.2, yes_it_is))
              | inr (no_it_is, b) ↦ inl (f.0, r, b, e)
            ]
        | inr (h, arguments, messages, e, a, m) ↦ inr (
          arguments,
          messages,
          e,
          λ b. elim (IsBlocking-cases b.0 (distinct_below root b.0 distinct b.1)) [
            | inl (t, other) ↦ other b.2
            | inr (t, blocks) ↦ ground (
              arith,
              t,
              each_node-IsMember node_reproducible (reproduced_subnodes root) h b.0
                  ((below_root b.0).1 b.1),
            )
          ],
          λ name.
              let s = arguments_lem root distinct name in
              (λ c. s.0 (sym (a name) ∙ c), λ r. a name ∙ s.1 r),
          λ name.
              let s = messages_lem root distinct name in
              (λ c. s.0 (sym (m name) ∙ c), λ r. m name ∙ s.1 r),
        )
      ]
