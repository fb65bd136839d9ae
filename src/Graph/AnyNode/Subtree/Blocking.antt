-- ===== src/Graph/AnyNode/Subtree/Blocking.antt =====
-- Which nodes keep a node of ayatori/src/graph_representation/node_tree.rs from being computed again from
-- public data.
use ayatori.Prelude.{◌≡◌, ◌⊎◌, ◌↔◌, inl, inr, refl, true, false, List, [], ◌∷◌, subst}
use ayatori.Entities.Params.{SessionParameters}
use ayatori.Entities.Function.Simple.{
  SimpleScalarFunction, SimpleMappingFunction, scalar_is_deterministic, mapping_is_deterministic,
}
use ayatori.Graph.Traversal.{Reach, IsMember}
use ayatori.Graph.Traversal.Reached.{HasDistinctIds}
use ayatori.Graph.Traversal.Reached.Below.{IsBelow}
use ayatori.Graph.AnyNode.{
  AnyNode, compute_scalar, collect, compute_mapping, serialize_and_sign_bc, serialize_and_sign_dm,
  deserialize_and_check, send_bc, send_dm, send_all, receive, scalar_argument, merge_scalars,
  ComputeScalarKind, ComputeMappingKind, with_reveal, node_id, all_args,
}
use ayatori.Graph.AnyNode.Tree.{flattened_args_only}
use ayatori.Graph.AnyNode.Tree.Order.{unordered_args_from-IsBelow}
use ayatori.Graph.AnyNode.Subtree.{
  is_receive, no_receive, is_local, scalar_kind_reproducible, mapping_kind_reproducible,
  node_reproducible,
}

module _ {P : SessionParameters} where
  -- The node is a reception of messages.
  abbrev pub IsReception : AnyNode P → Type 0
  IsReception (receive i tag name) = Unit
  IsReception _ = ⊥

  -- The node computes with random bytes or with a secret key, or collects what other parties send.
  unfoldable pub IsBlocking : AnyNode P → Type 0
  IsBlocking
        (compute_scalar i tag
          (ComputeScalarKind.simple (SimpleScalarFunction.unattributable_with_rng f))
          args
          nodes) =
      Unit
  IsBlocking
        (compute_mapping i tag args
          (ComputeMappingKind.simple (SimpleMappingFunction.unattributable_with_rng f))
          nodes) =
      Unit
  IsBlocking (serialize_and_sign_bc i tag function signs adapter name) = Unit
  IsBlocking (serialize_and_sign_dm i tag function signs adapter name) = Unit
  IsBlocking (collect i tag values group nodes) =
      (n : AnyNode P) × Reach all_args (collect i tag values group nodes) n × IsReception n
  IsBlocking _ = ⊥

  abbrev pub HasDistinctArgs : AnyNode P → Type 0
  HasDistinctArgs = HasDistinctIds node_id all_args

  pub flattened_args_only-Reach :
      (root : AnyNode P)
      → HasDistinctArgs root
      → (n : AnyNode P) → IsMember n (flattened_args_only root) ↔ Reach all_args root n
  unfolding flattened_args_only
  flattened_args_only-Reach root distinct n =
      let found =
        unordered_args_from-IsBelow (root ∷ [])
          (λ j k p q e. distinct j k (alone j p) (alone k q) e) n in
      (λ m. alone n (found.0 m), λ r. found.1 (root, inl refl, r))
    where
      alone : (k : AnyNode P) → IsBelow all_args (root ∷ []) k → Reach all_args root k
      alone k (j, inl p, r) = subst (λ x. Reach all_args x k) p r
      alone k (j, inr m, r) = absurd m

  is_receive-cases :
      (node : AnyNode P)
      → ((is_receive node ≡ true) × IsReception node)
        ⊎ ((is_receive node ≡ false) × ¬ (IsReception node))
  unfolding is_receive
  is_receive-cases (receive i tag name) = inl (refl, tt)
  is_receive-cases node = inr (refl, λ r. r)

  no_receive-cases :
      (nodes : List (AnyNode P))
      → ((no_receive nodes ≡ true) × ((n : AnyNode P) → IsMember n nodes → ¬ (IsReception n)))
        ⊎ ((no_receive nodes ≡ false) × (n : AnyNode P) × IsMember n nodes × IsReception n)
  unfolding no_receive
  no_receive-cases [] = inl (refl, λ n m r. m)
  no_receive-cases (node ∷ nodes) = elim (is_receive-cases node) [
    | inl (e, r) ↦ inr (rw e refl, node, inl refl, r)
    | inr (e, other) ↦ elim (no_receive-cases nodes) [
      | inr (f, n, m, r) ↦ inr (rw e f, n, inr m, r)
      | inl (f, none_of) ↦ inl (
        rw e f,
        λ n m. elim m [ inl p ↦ (λ r. other (subst IsReception p r)) | inr k ↦ none_of n k ],
      )
    ]
  ]

  -- A node is reproducible or blocks the reproduction.
  pub IsBlocking-cases :
      (node : AnyNode P)
      → HasDistinctArgs node
      → ((node_reproducible node ≡ true) × ¬ (IsBlocking node))
        ⊎ ((node_reproducible node ≡ false) × IsBlocking node)
  unfolding node_reproducible IsBlocking scalar_kind_reproducible mapping_kind_reproducible
      scalar_is_deterministic mapping_is_deterministic is_local
  IsBlocking-cases
        (compute_scalar i tag
          (ComputeScalarKind.simple (SimpleScalarFunction.unattributable_with_rng f))
          args
          nodes)
        d =
      inr (refl, tt)
  IsBlocking-cases
        (compute_scalar i tag
          (ComputeScalarKind.simple (SimpleScalarFunction.unattributable f))
          args
          nodes)
        d =
      inl (refl, λ b. b)
  IsBlocking-cases
        (compute_scalar i tag
          (ComputeScalarKind.simple (SimpleScalarFunction.unattributable_optional f))
          args
          nodes)
        d =
      inl (refl, λ b. b)
  IsBlocking-cases
        (compute_scalar i tag (ComputeScalarKind.third_party_attributable f v) args nodes) d =
      inl (refl, λ b. b)
  IsBlocking-cases
        (compute_mapping i tag args
          (ComputeMappingKind.simple (SimpleMappingFunction.unattributable_with_rng f))
          nodes)
        d =
      inr (refl, tt)
  IsBlocking-cases
        (compute_mapping i tag args
          (ComputeMappingKind.simple (SimpleMappingFunction.unattributable f))
          nodes)
        d =
      inl (refl, λ b. b)
  IsBlocking-cases
        (compute_mapping i tag args
          (ComputeMappingKind.simple (SimpleMappingFunction.sender_attributable f))
          nodes)
        d =
      inl (refl, λ b. b)
  IsBlocking-cases (compute_mapping i tag args (with_reveal f v reads) nodes) d = inl (refl, λ b. b)
  IsBlocking-cases
        (compute_mapping i tag args (ComputeMappingKind.third_party_attributable f v) nodes) d =
      inl (refl, λ b. b)
  IsBlocking-cases (serialize_and_sign_bc i tag function signs adapter name) d = inr (refl, tt)
  IsBlocking-cases (serialize_and_sign_dm i tag function signs adapter name) d = inr (refl, tt)
  IsBlocking-cases (collect i tag values group nodes) d =
      let node = collect i tag values group nodes in
      let reach = flattened_args_only-Reach node d in
      elim (no_receive-cases (flattened_args_only node)) [
        | inl (e, none_of) ↦ inl (e, λ b. none_of b.0 ((reach b.0).1 b.1) b.2)
        | inr (e, n, m, r) ↦ inr (e, (n, (reach n).0 m, r))
      ]
  IsBlocking-cases (deserialize_and_check i tag function reads adapter name) d = inl (refl, λ b. b)
  IsBlocking-cases (send_bc i tag sends destinations nodes) d = inl (refl, λ b. b)
  IsBlocking-cases (send_dm i tag sends nodes) d = inl (refl, λ b. b)
  IsBlocking-cases (send_all i tag values destinations) d = inl (refl, λ b. b)
  IsBlocking-cases (receive i tag name) d = inl (refl, λ b. b)
  IsBlocking-cases (scalar_argument i tag name) d = inl (refl, λ b. b)
  IsBlocking-cases (merge_scalars i tag left right) d = inl (refl, λ b. b)
