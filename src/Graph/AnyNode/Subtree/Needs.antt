-- ===== src/Graph/AnyNode/Subtree/Needs.antt =====
-- What `reproducibility` of ayatori/src/graph_representation/node_tree.rs reports: whether a node can be
-- computed again from public data, and what that takes.
use ayatori.Prelude.{
  String, Bool, true, false, ◌||◌, ◌&&◌, List, [], ◌∷◌, ◌≡◌, ◌⊎◌, refl, arith, ite, Bool-cases, inl,
  inr,
}
use ayatori.Collections.Order.{string_ord}
use ayatori.Collections.BTreeSet.{BTreeSet, contains, contains-insert}
use ayatori.Entities.Tags.{FullName, full_name_ord}
use ayatori.Entities.Params.{SessionParameters}
use ayatori.Graph.AnyNode.{
  AnyNode, compute_scalar, collect, compute_mapping, serialize_and_sign_bc, serialize_and_sign_dm,
  deserialize_and_check, send_bc, send_dm, send_all, receive, scalar_argument, merge_scalars,
}
use ayatori.Graph.AnyNode.Subtree.{
  Reproducibility, available, not_available, reproduced_subnodes, node_reproducible, with_argument,
  with_message, reproducibility_of, reproducibility,
}

module _ {P : SessionParameters} where
  -- The node is the argument of this name, and the reception of messages of this name.
  unfoldable pub is_argument : String → AnyNode P → Bool
  is_argument name (scalar_argument i tag argument) = ite (string_ord.dec name argument) true false
  is_argument name node = false

  unfoldable pub is_reception_of : FullName → AnyNode P → Bool
  is_reception_of name (receive i tag message_name) =
      ite (full_name_ord.dec name message_name) true false
  is_reception_of name node = false

  unfoldable pub some_node : (AnyNode P → Bool) → List (AnyNode P) → Bool
  some_node test [] = false
  some_node test (node ∷ nodes) = test node || some_node test nodes

  unfoldable pub each_node : (AnyNode P → Bool) → List (AnyNode P) → Bool
  each_node test [] = true
  each_node test (node ∷ nodes) = test node && each_node test nodes

  contains-with_argument :
      (s : BTreeSet String) (node : AnyNode P) (name : String)
      → contains (with_argument s node) name ≡ is_argument name node || contains s name
  unfolding with_argument is_argument
  contains-with_argument s (compute_scalar i tag kind args nodes) name = refl
  contains-with_argument s (collect i tag values group nodes) name = refl
  contains-with_argument s (compute_mapping i tag args kind nodes) name = refl
  contains-with_argument s (serialize_and_sign_bc i tag f signs adapter n) name = refl
  contains-with_argument s (serialize_and_sign_dm i tag f signs adapter n) name = refl
  contains-with_argument s (deserialize_and_check i tag f reads adapter n) name = refl
  contains-with_argument s (send_bc i tag sends destinations nodes) name = refl
  contains-with_argument s (send_dm i tag sends nodes) name = refl
  contains-with_argument s (send_all i tag values destinations) name = refl
  contains-with_argument s (receive i tag n) name = refl
  contains-with_argument s (scalar_argument i tag n) name = ground (arith, contains-insert s n name)
  contains-with_argument s (merge_scalars i tag left right) name = refl

  contains-with_message :
      (s : BTreeSet FullName) (node : AnyNode P) (name : FullName)
      → contains (with_message s node) name ≡ is_reception_of name node || contains s name
  unfolding with_message is_reception_of
  contains-with_message s (compute_scalar i tag kind args nodes) name = refl
  contains-with_message s (collect i tag values group nodes) name = refl
  contains-with_message s (compute_mapping i tag args kind nodes) name = refl
  contains-with_message s (serialize_and_sign_bc i tag f signs adapter n) name = refl
  contains-with_message s (serialize_and_sign_dm i tag f signs adapter n) name = refl
  contains-with_message s (deserialize_and_check i tag f reads adapter n) name = refl
  contains-with_message s (send_bc i tag sends destinations nodes) name = refl
  contains-with_message s (send_dm i tag sends nodes) name = refl
  contains-with_message s (send_all i tag values destinations) name = refl
  contains-with_message s (receive i tag n) name = ground (arith, contains-insert s n name)
  contains-with_message s (scalar_argument i tag n) name = refl
  contains-with_message s (merge_scalars i tag left right) name = refl

  -- The sets that a run of the loop returns.
  abbrev pub Asks :
      List (AnyNode P) → BTreeSet String → BTreeSet FullName → Reproducibility → Type 0
  Asks nodes arguments messages r =
      (all_arguments : BTreeSet String) × (all_messages : BTreeSet FullName) × (r
        ≡ available all_arguments all_messages)
      × ((name : String)
          → contains all_arguments name
            ≡ some_node (is_argument name) nodes || contains arguments name)
      × ((name : FullName)
          → contains all_messages name
            ≡ some_node (is_reception_of name) nodes || contains messages name)

  reproducibility_of_lem :
      (nodes : List (AnyNode P)) (arguments : BTreeSet String) (messages : BTreeSet FullName)
      → (each_node node_reproducible nodes ≡ false
          → reproducibility_of nodes arguments messages ≡ not_available)
        × (each_node node_reproducible nodes ≡ true
            → Asks nodes arguments messages (reproducibility_of nodes arguments messages))
  unfolding reproducibility_of each_node some_node
  reproducibility_of_lem [] arguments messages =
      (λ h. ground (arith, h), λ h. (arguments, messages, refl, λ name. refl, λ name. refl))
  reproducibility_of_lem (node ∷ nodes) arguments messages =
      let rest =
        reproducibility_of_lem nodes (with_argument arguments node) (with_message messages node) in
      elim (Bool-cases (node_reproducible node)) [
        | inl e ↦ rw e (
          rest.0,
          λ h.
              let r = rest.1 h in
              (
                r.0,
                r.1,
                r.2,
                λ name. ground (arith, r.3 name, contains-with_argument arguments node name),
                λ name. ground (arith, r.4 name, contains-with_message messages node name),
              ),
        )
        | inr e ↦ rw e (λ h. refl, λ h. ground (arith, h))
      ]

  -- A node can be reproduced exactly where each node that its reproduction computes can be, and then it takes
  -- the arguments and the messages that some of these nodes are the argument or the reception of, and no
  -- others.
  pub reproducibility_lem :
      (node : AnyNode P)
      → ((each_node node_reproducible (reproduced_subnodes node) ≡ false)
          × (reproducibility node ≡ not_available))
        ⊎ ((each_node node_reproducible (reproduced_subnodes node) ≡ true)
            × (arguments : BTreeSet String) × (messages : BTreeSet FullName) × (reproducibility node
                ≡ available arguments messages)
            × ((name : String)
                → contains arguments name ≡ some_node (is_argument name) (reproduced_subnodes node))
            × ((name : FullName)
                → contains messages name
                  ≡ some_node (is_reception_of name) (reproduced_subnodes node)))
  unfolding reproducibility contains
  reproducibility_lem node =
      let r = reproducibility_of_lem (reproduced_subnodes node) [] [] in
      elim (Bool-cases (each_node node_reproducible (reproduced_subnodes node))) [
        | inl h ↦
            let a = r.1 h in
            inr
              (h, a.0, a.1, a.2, λ name. ground (arith, a.3 name), λ name. ground (arith, a.4 name))
        | inr h ↦ inl (h, r.0 h)
      ]
