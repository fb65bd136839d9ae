-- ===== src/Tests/Rbc.antt =====
-- The tree of ayatori-rbc/src/merkle_tree.rs, with a checksum of one byte in the place of a hash.
use ayatori.Prelude.{ℕ, ◌%◌, List, [], ◌∷◌, ◌++◌, some, true, total, ◌≡◌, ◌⊎◌, refl, arith}
use ayatori.Entities.Params.{Bytes, ascii}
use ayatori.Entities.Errors.{ok}
use ayatori.Rbc.MerkleTree.{
  Target, MerkleTree, MerkleBranch, new, branch, root, verify, from_value, from_nodes,
}
use ayatori.Rbc.MerkleTree.Verified.{verify-branch}
use ayatori.Rbc.MerkleTree.Binding.{HasCollision, verify_inputs, verify_binds}

abbrev checksum : Bytes → Bytes
checksum bytes = (total (λ n. n) bytes % 256) ∷ []

abbrev byte : ℕ → Bytes
byte n = n ∷ []

abbrev wide : Target
wide = record { usize_bits = 64; overflow_checks = true }

-- Five items, the third of which is given twice.
abbrev before : List (ℕ × ℕ)
before = (4, 40) ∷ (2, 21) ∷ (0, 10) ∷ []

abbrev after : List (ℕ × ℕ)
after = (1, 11) ∷ (3, 30) ∷ []

verify-branch_example :
    (t : MerkleTree) × (b : MerkleBranch) × (new checksum byte (before ++ ((2, 20) ∷ after))
      ≡ some (ok t))
    × (branch t 2 ≡ some b)
    × (root t ≡ some b.root)
    × (verify wide checksum byte b 2 20 ≡ some true)
verify-branch_example =
    verify-branch checksum wide byte before after 2 20
      (omega arith, (omega arith, (omega arith, (omega arith, (omega arith, (omega arith, tt))))))
      (omega arith, (omega arith, tt))

-- The checksum does not depend on the order, so the branches of different values can have one root.
abbrev first : MerkleBranch
first = record {
  nodes = byte 5 ∷ [];
  root = from_nodes checksum (from_value checksum byte 7) (byte 5);
}

abbrev second : MerkleBranch
second = record {
  nodes = byte 4 ∷ [];
  root = from_nodes checksum (from_value checksum byte 8) (byte 4);
}

same_root : first.root ≡ second.root
unfolding from_nodes from_value total
same_root = refl

first_verifies : verify wide checksum byte first 0 7 ≡ some true
unfolding verify from_nodes from_value ayatori.Entities.Params.Bytes_discrete
    ayatori.Rbc.MerkleTree.climb ayatori.Rbc.MerkleTree.shift_right ayatori.Rbc.MerkleTree.◌>>◌
    total
first_verifies = refl

second_verifies : verify wide checksum byte second 0 8 ≡ some true
unfolding verify from_nodes from_value ayatori.Entities.Params.Bytes_discrete
    ayatori.Rbc.MerkleTree.climb ayatori.Rbc.MerkleTree.shift_right ayatori.Rbc.MerkleTree.◌>>◌
    total
second_verifies = refl

verify_binds_example :
    (byte 7 ≡ byte 8)
    ⊎ HasCollision checksum
        (verify_inputs wide checksum byte first 0 7)
        (verify_inputs wide checksum byte second 0 8)
verify_binds_example =
    verify_binds wide checksum 1 (λ x. refl) byte 0 first second 7 8 same_root refl (refl, tt)
      (refl, tt) first_verifies second_verifies
