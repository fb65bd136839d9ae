-- ===== src/Rbc/Shard.antt =====
-- ayatori-rbc/src/sharding.rs: a shard and its hash. `digest` is as in the tree; a failed `expect` is a
-- panic, which is `none` here.
use ayatori.Prelude.{
  ℕ, ◌+◌, ◌-◌, ◌*◌, [], ◌∷◌, ◌++◌, Option, some, none, true, false, length, if◌then◌else◌, leb,
}
use ayatori.Entities.Params.{Bytes, ascii, to_be_bytes}
use ayatori.Entities.Errors.{RuntimeError, failed, Result, ok, err}
use ayatori.Rbc.Scheme.{u32_max, to_u32, ◌>>=◌}
pub mod Hashing

pub data ShardKind : Type 0 where
  original recovery : ShardKind

pub record Shard : Type 0 where
  pub bytes : Bytes
  pub kind : ShardKind
  pub idx : ℕ

unfoldable pub new : ℕ → ShardKind → Bytes → Result RuntimeError Shard
new idx kind bytes =
    if leb (length bytes) u32_max
    then if leb idx u32_max
      then ok (record { bytes = bytes; kind = kind; idx = idx })
      else err (failed "`idx` must be within `usize` bounds")
    else err (failed "`data` must be smaller than 2^32 bytes")

unfoldable pub kind_byte : ShardKind → ℕ
kind_byte original = 0
kind_byte recovery = 1

-- What the digest of a shard is updated with.
unfoldable pub hash_input : Shard → Option Bytes
hash_input s = do
  size ← to_u32 (length s.bytes)
  idx ← to_u32 s.idx
  some
      (ascii "Shard" ++ (to_be_bytes 4 size ++ (s.bytes ++ (kind_byte s.kind ∷ to_be_bytes 4 idx))))

unfoldable pub hash : (Bytes → Bytes) → Shard → Option Bytes
hash digest s = do input ← hash_input s; some (digest input)
