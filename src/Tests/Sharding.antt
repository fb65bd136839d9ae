-- ===== src/Tests/Sharding.antt =====
-- The schemes and the shards of ayatori-rbc/src/sharding.rs, on a platform with 64 bits.
use ayatori.Prelude.{ℕ, ◌%◌, [], ◌∷◌, some, none, total, ◌≡◌, ◌⊎◌, refl}
use ayatori.Entities.Params.{Bytes}
use ayatori.Entities.Errors.{ok}
use ayatori.Rbc.Scheme.{Scheme, WireScheme, new_inner, into_wire, from_wire, new}
use ayatori.Rbc.Scheme.Wire.{FitsWire, into_wire-cases}
use ayatori.Rbc.Shard.{Shard, original, hash_input, hash}
use ayatori.Rbc.Shard.Hashing.{IsMade, hash_input_injective}

abbrev usize_max : ℕ
usize_max = 18446744073709551615

-- 34 bytes in each of 3 shards, two of the bytes padding, and 7 shards for recovery.
abbrev three_of_ten : Scheme
three_of_ten = record { original_shards = 3; recovery_shards = 7; shard_size = 34; padding = 2 }

new-three_of_ten : new usize_max 100 10 3 ≡ some (ok three_of_ten)
unfolding new ayatori.Rbc.Scheme.with_shard_size ayatori.Rbc.Scheme.even_size
    ayatori.Rbc.Scheme.div_ceil ayatori.Rbc.Scheme.with_padded_size ayatori.Rbc.Scheme.checked_mul
    ayatori.Rbc.Scheme.with_padding ayatori.Rbc.Scheme.checked_sub ayatori.Rbc.Scheme.with_recovery
    new_inner
new-three_of_ten = refl

accepted : new_inner usize_max 3 7 34 2 ≡ ok three_of_ten
unfolding new_inner ayatori.Rbc.Scheme.checked_mul
accepted = refl

into_wire-cases_example :
    (FitsWire three_of_ten
      × (w : WireScheme) × (into_wire three_of_ten ≡ some w)
      × (from_wire usize_max w ≡ ok three_of_ten))
    ⊎ ((¬ FitsWire three_of_ten) × (into_wire three_of_ten ≡ none))
into_wire-cases_example = into_wire-cases usize_max three_of_ten accepted

abbrev byte_sum : Bytes → Bytes
byte_sum bytes = (total (λ n. n) bytes % 256) ∷ []

abbrev forward : Shard
forward = record { bytes = 1 ∷ 2 ∷ []; kind = original; idx = 4 }

forward-IsMade : IsMade forward
unfolding ayatori.Rbc.Shard.new
forward-IsMade = refl

hash_input_injective_example :
    ((input : Bytes) × (hash_input forward ≡ some input)
      × (hash byte_sum forward ≡ some (byte_sum input)))
    × (forward ≡ forward)
hash_input_injective_example =
    hash_input_injective byte_sum forward forward forward-IsMade forward-IsMade refl
