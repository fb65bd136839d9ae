-- ===== src/Rbc/Shard/Hashing.antt =====
-- That the hash of a shard of ayatori-rbc/src/sharding.rs stands for the whole shard.
use ayatori.Prelude.{
  ℕ, ◌+◌, ◌*◌, ◌≤◌, [], ◌∷◌, ◌++◌, some, true, length, leb, Bool-cases, ◌≡◌, refl, sym, ap, ◌∙◌,
  inl, inr, arith,
}
use ayatori.Entities.Params.{Bytes, ascii, to_be_bytes}
use ayatori.Entities.Errors.{ok}
use ayatori.Rbc.Scheme.{u32_max, to_u32}
use ayatori.Rbc.Shard.{Shard, ShardKind, original, recovery, new, kind_byte, hash_input, hash}
use ayatori.Rbc.MerkleTree.Binding.{append_injective, append_left_cancel}

-- The number that some bytes stand for, the first of them the highest, after a higher part.
unfoldable from_be_bytes : ℕ → Bytes → ℕ
from_be_bytes n [] = n
from_be_bytes n (b ∷ bytes) = from_be_bytes (n * 256 + b) bytes

from_be_bytes-to_be_bytes : (n : ℕ) → n ≤ u32_max → from_be_bytes 0 (to_be_bytes 4 n) ≡ n
unfolding from_be_bytes to_be_bytes
from_be_bytes-to_be_bytes n h = omega (arith, h)

to_be_bytes_injective :
    (m n : ℕ) → m ≤ u32_max → n ≤ u32_max → to_be_bytes 4 m ≡ to_be_bytes 4 n → m ≡ n
to_be_bytes_injective m n a b e =
    sym (from_be_bytes-to_be_bytes m a)
    ∙ ap (λ bytes. from_be_bytes 0 bytes) e
    ∙ from_be_bytes-to_be_bytes n b

kind_byte_injective : (k l : ShardKind) → kind_byte k ≡ kind_byte l → k ≡ l
unfolding kind_byte
kind_byte_injective original original e = refl
kind_byte_injective original recovery e = ground (arith, e)
kind_byte_injective recovery original e = ground (arith, e)
kind_byte_injective recovery recovery e = refl

-- A shard that the constructor accepts.
abbrev pub IsMade : Shard → Type 0
IsMade s = new s.idx s.kind s.bytes ≡ ok s

IsMade-range : (s : Shard) → IsMade s → (length s.bytes ≤ u32_max) × (s.idx ≤ u32_max)
unfolding new
IsMade-range s made = elim (Bool-cases (leb (length s.bytes) u32_max)) [
  | inl e ↦ elim (Bool-cases (leb s.idx u32_max)) [
    | inl f ↦ (ground arith, ground arith)
    | inr f ↦ ground (arith, made)
  ]
  | inr e ↦ ground (arith, made)
]

abbrev layout : Shard → Bytes
layout s =
    ascii "Shard"
    ++ (to_be_bytes 4 (length s.bytes) ++ (s.bytes ++ (kind_byte s.kind ∷ to_be_bytes 4 s.idx)))

hash_input-layout : (s : Shard) → IsMade s → hash_input s ≡ some (layout s)
unfolding hash_input to_u32
hash_input-layout s made = rw (t1, t2) refl
  where
    t1 : leb (length s.bytes) u32_max ≡ true
    t1 = ground (arith, IsMade-range s made)

    t2 : leb s.idx u32_max ≡ true
    t2 = ground (arith, IsMade-range s made)

length-to_be_bytes : (m n : ℕ) → length (to_be_bytes 4 m) ≡ length (to_be_bytes 4 n)
unfolding to_be_bytes
length-to_be_bytes m n = refl

layout_injective : (s s' : Shard) → IsMade s → IsMade s' → layout s ≡ layout s' → s ≡ s'
layout_injective s s' made made' e =
    (λ i. record { bytes = rest.0 i; kind = kinds i; idx = indices i })
  where
    sizes :
        (to_be_bytes 4 (length s.bytes) ≡ to_be_bytes 4 (length s'.bytes))
        × (s.bytes ++ (kind_byte s.kind ∷ to_be_bytes 4 s.idx)
            ≡ s'.bytes ++ (kind_byte s'.kind ∷ to_be_bytes 4 s'.idx))
    sizes =
        append_injective (to_be_bytes 4 (length s.bytes)) (to_be_bytes 4 (length s'.bytes))
          (length-to_be_bytes _ _) (append_left_cancel (ascii "Shard") e)

    rest :
        (s.bytes ≡ s'.bytes)
        × (kind_byte s.kind ∷ to_be_bytes 4 s.idx ≡ kind_byte s'.kind ∷ to_be_bytes 4 s'.idx)
    rest =
        append_injective s.bytes s'.bytes
          (to_be_bytes_injective _ _ (IsMade-range s made).0 (IsMade-range s' made').0 sizes.0)
          sizes.1

    kinds : s.kind ≡ s'.kind
    kinds = kind_byte_injective s.kind s'.kind (ground (arith, rest.1))

    indices : s.idx ≡ s'.idx
    indices =
        to_be_bytes_injective s.idx s'.idx (IsMade-range s made).1 (IsMade-range s' made').1
          (ground (arith, rest.1))

-- A shard that was made has a hash, the digest of its input, and two that were made and give the
-- digest the same input are the same shard.
pub hash_input_injective :
    (digest : Bytes → Bytes) (s s' : Shard)
    → IsMade s
    → IsMade s'
    → hash_input s ≡ hash_input s'
    → ((input : Bytes) × (hash_input s ≡ some input) × (hash digest s ≡ some (digest input)))
      × (s ≡ s')
unfolding hash
hash_input_injective digest s s' made made' e = (
  (layout s, hash_input-layout s made, rw (hash_input-layout s made) refl),
  layout_injective s s' made made'
      (ground (arith, hash_input-layout s made, hash_input-layout s' made', e)),
)
