-- ===== src/Rbc/Scheme.antt =====
-- ayatori-rbc/src/sharding.rs: the sizes of a scheme, its shards, and their wire forms. `usize_max`
-- is the platform's `usize::MAX`; a failed `expect` is a panic, which is `none` here.
use ayatori.Prelude.{
  ℕ, zero, suc, ◌+◌, ◌-◌, ◌*◌, ◌/◌, ◌%◌, ◌^◌, [], ◌∷◌, ◌++◌, Option, some, none, Bool, true, false,
  length, if◌then◌else◌, ◌==◌, ltb, leb, not,
}
use ayatori.Entities.Params.{Bytes, ascii, to_be_bytes}
use ayatori.Entities.Errors.{RuntimeError, failed, Result, ok, err}
pub mod Rounding
pub mod Sizes
pub mod Wire

pub record Scheme : Type 0 where
  pub original_shards : ℕ
  pub recovery_shards : ℕ
  pub shard_size : ℕ
  pub padding : ℕ

-- Every field is a `u32`.
pub record WireScheme : Type 0 where
  pub original_shards : ℕ
  pub recovery_shards : ℕ
  pub shard_size : ℕ
  pub padding : ℕ

unfoldable pub div_ceil : ℕ → ℕ → ℕ
div_ceil a b = if a % b == 0 then a / b else a / b + 1

abbrev pub u32_max : ℕ
u32_max = 4294967295

-- `u32::try_from`.
unfoldable pub to_u32 : ℕ → Option ℕ
to_u32 n = if leb n u32_max then some n else none

infixl 10 ◌>>=◌
abbrev pub ◌>>=◌ : {A B : Type 0} → Option A → (A → Option B) → Option B
none >>= f = none
some a >>= f = f a

-- `ok_or_else`.
unfoldable pub ok_or : {A : Type 0} → Option A → RuntimeError → Result RuntimeError A
ok_or none e = err e
ok_or (some a) e = ok a

unfoldable pub checked_sub : ℕ → ℕ → Option ℕ
checked_sub a b = if leb b a then some (a - b) else none

unfoldable pub without_padding : ℕ → Option ℕ → Option ℕ
without_padding padding none = none
without_padding padding (some size) = checked_sub size padding

module _ (usize_max : ℕ) where
  unfoldable pub checked_add : ℕ → ℕ → Option ℕ
  checked_add a b = if leb (a + b) usize_max then some (a + b) else none

  unfoldable pub checked_mul : ℕ → ℕ → Option ℕ
  checked_mul a b = if leb (a * b) usize_max then some (a * b) else none

  unfoldable pub new_inner : ℕ → ℕ → ℕ → ℕ → Result RuntimeError Scheme
  new_inner original_shards recovery_shards shard_size padding =
      if original_shards == 0
      then err (failed "`original_shards` must be non-zero")
      else if shard_size % 2 == 1
      then err (failed "Shard size must be even")
      else with_product (checked_mul original_shards shard_size)
    where
      with_product : Option ℕ → Result RuntimeError Scheme
      with_product none = err (failed "Overflow when calculating the size of the padded message")
      with_product (some padded_size) =
          if leb padded_size padding
          then err (failed "Padding must be smaller than the total size of the original data")
          else ok (record {
            original_shards = original_shards;
            recovery_shards = recovery_shards;
            shard_size = shard_size;
            padding = padding;
          })

  unfoldable pub padded_size : Scheme → Option ℕ
  padded_size s = checked_mul s.original_shards s.shard_size

  unfoldable pub original_size : Scheme → Option ℕ
  original_size s = without_padding s.padding (padded_size s)

  -- The rounding up in `new`, to an even size.
  unfoldable pub even_size : ℕ → Result RuntimeError ℕ
  even_size shard_size =
      if shard_size % 2 == 0
      then ok shard_size
      else ok_or (checked_add shard_size 1) (failed "The resulting shard size is too large")

  -- The end of `new`, from the number of recovery shards on.
  unfoldable pub with_recovery : ℕ → ℕ → ℕ → Option ℕ → Result RuntimeError Scheme
  with_recovery threshold shard_size padding none =
      err (failed "`threshold` must not be greater than the total number of shards")
  with_recovery threshold shard_size padding (some recovery_shards) =
      new_inner threshold recovery_shards shard_size padding

  unfoldable pub with_padding : ℕ → ℕ → ℕ → Option ℕ → Option (Result RuntimeError Scheme)
  with_padding total_shards threshold shard_size none = none
  with_padding total_shards threshold shard_size (some padding) =
      some (with_recovery threshold shard_size padding (checked_sub total_shards threshold))

  unfoldable pub with_padded_size : ℕ → ℕ → ℕ → ℕ → Option ℕ → Option (Result RuntimeError Scheme)
  with_padded_size original_size total_shards threshold shard_size none =
      some (err (failed "The resulting padded size is too large"))
  with_padded_size original_size total_shards threshold shard_size (some padded_size) =
      with_padding total_shards threshold shard_size (checked_sub padded_size original_size)

  unfoldable pub with_shard_size :
      ℕ → ℕ → ℕ → Result RuntimeError ℕ → Option (Result RuntimeError Scheme)
  with_shard_size original_size total_shards threshold (err e) = some (err e)
  with_shard_size original_size total_shards threshold (ok shard_size) =
      with_padded_size original_size total_shards threshold shard_size
        (checked_mul shard_size threshold)

  unfoldable pub new : ℕ → ℕ → ℕ → Option (Result RuntimeError Scheme)
  new original_size total_shards threshold =
      if threshold == 0
      then some (err (failed "`threshold` must be non-zero"))
      else with_shard_size original_size total_shards threshold
          (even_size (div_ceil original_size threshold))

  unfoldable pub from_wire : WireScheme → Result RuntimeError Scheme
  from_wire source =
      new_inner source.original_shards source.recovery_shards source.shard_size source.padding

-- A field that is not a `u32` is a panic.
unfoldable pub into_wire : Scheme → Option WireScheme
into_wire source = do
  original_shards ← to_u32 source.original_shards
  recovery_shards ← to_u32 source.recovery_shards
  shard_size ← to_u32 source.shard_size
  padding ← to_u32 source.padding
  some (record {
    original_shards = original_shards;
    recovery_shards = recovery_shards;
    shard_size = shard_size;
    padding = padding;
  })
