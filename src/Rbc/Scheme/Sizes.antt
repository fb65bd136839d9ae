-- ===== src/Rbc/Scheme/Sizes.antt =====
-- The sizes that a scheme of ayatori-rbc/src/sharding.rs promises.
use ayatori.Prelude.{ℕ, ◌+◌, ◌*◌, ◌%◌, ◌≤◌, ◌<◌, Option, some, ◌≡◌, ◌⊎◌}
use ayatori.Entities.Errors.{RuntimeError, Result, ok, err}
use ayatori.Rbc.Scheme.{Scheme, original_size}

module _ (usize_max : ℕ) where
  -- The original size is that of the data, the shards are as many as they are to be, of an even size,
  -- and less than two bytes a shard are padding.
  abbrev pub IsSchemeOf : ℕ → ℕ → ℕ → Scheme → Type 0
  IsSchemeOf size total_shards threshold s =
      (original_size usize_max s ≡ some size)
      × (s.original_shards ≡ threshold)
      × (s.original_shards + s.recovery_shards ≡ total_shards)
      × (s.shard_size % 2 ≡ 0)
      × (s.padding < 2 * threshold)

  abbrev pub IsInRange : ℕ → ℕ → ℕ → Type 0
  IsInRange size total_shards threshold =
      (1 ≤ size) × (1 ≤ threshold) × (threshold ≤ total_shards) × (size + 2 * threshold ≤ usize_max)

  abbrev pub Outcome : ℕ → ℕ → ℕ → Option (Result RuntimeError Scheme) → Type 0
  Outcome size total_shards threshold r =
      ((s : Scheme) × (r ≡ some (ok s)) × IsSchemeOf size total_shards threshold s)
      ⊎ ((e : RuntimeError) × (r ≡ some (err e)) × (¬ IsInRange size total_shards threshold))
