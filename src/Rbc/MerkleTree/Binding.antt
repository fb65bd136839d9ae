-- ===== src/Rbc/MerkleTree/Binding.antt =====
-- That `MerkleBranch::verify` of ayatori-rbc/src/merkle_tree.rs binds a root to its items.
use ayatori.Prelude.{
  suc, ◌%◌, List, [], ◌∷◌, ◌++◌, Bool, true, false, length, ◌≡◌, ◌≢◌, ◌⊎◌, refl, sym, ap, ◌∙◌, inl,
  inr, arith, Bool-cases, ◌==◌, All, ite, ℕ, none, some, Option-cases,
}
use ayatori.Entities.Params.{Bytes, Bytes_discrete, ascii}
use ayatori.Rbc.MerkleTree.{
  Target, shift_right, ◌>>=◌, MerkleNode, MerkleBranch, from_value, from_nodes, climb, verify,
}

decided : {A : Type 0} {x y : A} (d : Dec (x ≡ y)) → some (ite d true false) ≡ some true → x ≡ y
decided (yes p) e = p
decided (no n) e = ground arith

pub append_left_cancel : {A : Type 0} (xs : List A) {ys zs : List A} → xs ++ ys ≡ xs ++ zs → ys ≡ zs
append_left_cancel [] e = e
append_left_cancel (x ∷ xs) e = append_left_cancel xs (ground (arith, e))

pub append_injective :
    {A : Type 0} (xs ys : List A) {us vs : List A}
    → length xs ≡ length ys
    → xs ++ us ≡ ys ++ vs
    → (xs ≡ ys) × (us ≡ vs)
append_injective [] [] h e = (refl, e)
append_injective [] (y ∷ ys) h e = ground (arith, h)
append_injective (x ∷ xs) [] h e = ground (arith, h)
append_injective (x ∷ xs) (y ∷ ys) h e =
    let rest = append_injective xs ys (omega (arith, h)) (ground (arith, e)) in
    (ap (λ z. z ∷ xs) (ground (arith, e)) ∙ ap (λ zs. y ∷ zs) rest.0, rest.1)

-- What `verify` gives the digest for a node and its sibling.
unfoldable pub parent_input : Bool → MerkleNode → MerkleNode → Bytes
parent_input true node sibling = ascii "MerkleTree" ++ (node ++ sibling)
parent_input false node sibling = ascii "MerkleTree" ++ (sibling ++ node)

parent_input_injective :
    (left : Bool) (a c x y : MerkleNode)
    → length a ≡ length c
    → length x ≡ length y
    → parent_input left a x ≡ parent_input left c y
    → a ≡ c
unfolding parent_input
parent_input_injective true a c x y h k e =
    (append_injective a c h (append_left_cancel (ascii "MerkleTree") e)).0
parent_input_injective false a c x y h k e =
    (append_injective x y k (append_left_cancel (ascii "MerkleTree") e)).1

abbrev pub value_input : {T : Type 0} → (T → Bytes) → T → Bytes
value_input hash value = ascii "MerkleTree" ++ (1 ∷ hash value)

abbrev pub IsAmong : Bytes → List Bytes → Type 0
IsAmong x [] = ⊥
IsAmong x (y ∷ ys) = (x ≡ y) ⊎ IsAmong x ys

module _ (digest : Bytes → Bytes) where
  -- Two different inputs with one digest, the first from one list and the second from another.
  abbrev pub HasCollision : List Bytes → List Bytes → Type 0
  HasCollision xs ys =
      (x : Bytes) × (y : Bytes) × IsAmong x xs × IsAmong y ys × (x ≢ y) × (digest x ≡ digest y)

  HasCollision-cons :
      (x y : Bytes) (xs ys : List Bytes) → HasCollision xs ys → HasCollision (x ∷ xs) (y ∷ ys)
  HasCollision-cons x y xs ys c = (c.0, c.1, inr c.2, inr c.3, c.4, c.5)

  same_input :
      (x y : Bytes) (xs ys : List Bytes)
      → digest x ≡ digest y
      → (x ≡ y) ⊎ HasCollision (x ∷ xs) (y ∷ ys)
  same_input x y xs ys e = elim (Bytes_discrete x y) [
    | yes p ↦ inl p
    | no n ↦ inr (x, y, inl refl, inl refl, n, e)
  ]

module _ (target : Target) (digest : Bytes → Bytes) where
  -- All that the digest is given while `verify` climbs from a node.
  unfoldable pub climb_inputs : ℕ → ℕ → MerkleNode → List MerkleNode → List Bytes
  climb_inputs idx level a [] = []
  climb_inputs idx level a (x ∷ xs) = elim (shift_right target idx level) [
    | none ↦ []
    | some node_idx ↦
        parent_input (node_idx % 2 == 0) a x
        ∷ climb_inputs idx (suc level) (digest (parent_input (node_idx % 2 == 0) a x)) xs
  ]

  -- All that the digest is given while `verify` checks a value.
  abbrev pub verify_inputs : {T : Type 0} → (T → Bytes) → MerkleBranch → ℕ → T → List Bytes
  verify_inputs hash b idx value =
      value_input hash value ∷ climb_inputs idx 0 (from_value digest hash value) b.nodes

  climb_cons :
      (idx level node_idx : ℕ) (a x : MerkleNode) (xs : List MerkleNode)
      → shift_right target idx level ≡ some node_idx
      → climb target digest idx level a (x ∷ xs)
        ≡ climb target digest idx (suc level) (digest (parent_input (node_idx % 2 == 0) a x)) xs
  unfolding climb parent_input from_nodes
  climb_cons idx level node_idx a x xs h = elim (Bool-cases (node_idx % 2 == 0)) [
    | inl e ↦ rw (h, e) refl
    | inr e ↦ rw (h, e) refl
  ]

  climb_inputs_cons :
      (idx level node_idx : ℕ) (a x : MerkleNode) (xs : List MerkleNode)
      → shift_right target idx level ≡ some node_idx
      → climb_inputs idx level a (x ∷ xs)
        ≡ parent_input (node_idx % 2 == 0) a x
          ∷ climb_inputs idx (suc level) (digest (parent_input (node_idx % 2 == 0) a x)) xs
  unfolding climb_inputs
  climb_inputs_cons idx level node_idx a x xs h = rw (h, climb_inputs) refl

  climb-none :
      (idx level : ℕ) (a x b : MerkleNode) (xs : List MerkleNode)
      → shift_right target idx level ≡ none
      → ¬ (climb target digest idx level a (x ∷ xs) ≡ some b)
  unfolding climb
  climb-none idx level a x b xs h e = ground (arith, h, e)

  climb_top :
      (idx level : ℕ) (a root : MerkleNode) (nodes : List MerkleNode)
      → (climb target digest idx level a nodes >>= λ current_node.
          some (ite (Bytes_discrete current_node root) true false))
        ≡ some true
      → climb target digest idx level a nodes ≡ some root
  climb_top idx level a root nodes v = elim (Option-cases (climb target digest idx level a nodes)) [
    | inl e ↦ absurd (ground (arith, e, v))
    | inr (top, e) ↦ e ∙ ap some (decided (Bytes_discrete top root) (rw e at v))
  ]

  module _ (size : ℕ) (sized : (x : Bytes) → length (digest x) ≡ size) where
    climb_injective :
        (idx level : ℕ) (a c top : MerkleNode) (nodes nodes' : List MerkleNode)
        → length a ≡ size
        → length c ≡ size
        → All (λ node. length node ≡ size) nodes
        → All (λ node. length node ≡ size) nodes'
        → length nodes ≡ length nodes'
        → climb target digest idx level a nodes ≡ some top
        → climb target digest idx level c nodes' ≡ some top
        → (a ≡ c)
          ⊎ HasCollision digest (climb_inputs idx level a nodes) (climb_inputs idx level c nodes')
    unfolding climb
    climb_injective idx level a c top [] [] p q s s' h e e' = inl (ground (arith, e, e'))
    climb_injective idx level a c top [] (y ∷ ys) p q s s' h e e' = ground (arith, h)
    climb_injective idx level a c top (x ∷ xs) [] p q s s' h e e' = ground (arith, h)
    climb_injective idx level a c top (x ∷ xs) (y ∷ ys) p q s s' h e e' =
        elim (Option-cases (shift_right target idx level)) [
          | inl stuck ↦ absurd (climb-none idx level a x top xs stuck e)
          | inr (node_idx, shifted) ↦
              let left = node_idx % 2 == 0 in
              let input = parent_input left a x in
              let input' = parent_input left c y in
              rw
                (
                  climb_inputs_cons idx level node_idx a x xs shifted,
                  climb_inputs_cons idx level node_idx c y ys shifted,
                )
                (elim (climb_injective idx (suc level) (digest input) (digest input') top xs ys
                  (sized _) (sized _) s.1 s'.1 (omega (arith, h))
                  (sym (climb_cons idx level node_idx a x xs shifted) ∙ e)
                  (sym (climb_cons idx level node_idx c y ys shifted) ∙ e')) [
                    | inr collision ↦ inr (HasCollision-cons digest input input' _ _ collision)
                    | inl same ↦ elim (same_input digest input input' _ _ same) [
                      | inl equal ↦
                          inl
                            (parent_input_injective left a c x y (p ∙ sym q) (s.0 ∙ sym s'.0) equal)
                      | inr collision ↦ inr collision
                    ]
                  ])
        ]

    length-from_value :
        {T : Type 0} (hash : T → Bytes) (value : T) → length (from_value digest hash value) ≡ size
    unfolding from_value
    length-from_value hash value = sized _

    -- Two branches that have the same root and as many nodes, and both verify at an index, do so with
    -- values that have the same hash, unless two different ones of the inputs that the digest is given
    -- in the two verifications have the same digest. Every node is as long as the digests are. The
    -- branches may be longer than any tree is, and overflow may be checked or not.
    pub verify_binds :
        {T : Type 0} (hash : T → Bytes) (idx : ℕ) (b b' : MerkleBranch) (value value' : T)
        → b.root ≡ b'.root
        → length b.nodes ≡ length b'.nodes
        → All (λ node. length node ≡ size) b.nodes
        → All (λ node. length node ≡ size) b'.nodes
        → verify target digest hash b idx value ≡ some true
        → verify target digest hash b' idx value' ≡ some true
        → (hash value ≡ hash value')
          ⊎ HasCollision digest (verify_inputs hash b idx value) (verify_inputs hash b' idx value')
    unfolding verify from_value
    verify_binds hash idx b b' value value' r h s s' v v' =
        elim (climb_injective idx 0 (from_value digest hash value) (from_value digest hash value')
          b.root b.nodes b'.nodes (length-from_value hash value) (length-from_value hash value') s
          s' h (climb_top idx 0 (from_value digest hash value) b.root b.nodes v)
          (climb_top idx 0 (from_value digest hash value') b'.root b'.nodes v' ∙ ap some (sym r))) [
            | inr collision ↦ inr (
                HasCollision-cons digest (value_input hash value) (value_input hash value') _ _
                  collision)
            | inl same ↦
                elim (same_input digest (value_input hash value) (value_input hash value') _ _
                  same) [
                    | inl equal ↦ inl (append_left_cancel (ascii "MerkleTree" ++ (1 ∷ [])) equal)
                    | inr collision ↦ inr collision
                  ]
          ]
