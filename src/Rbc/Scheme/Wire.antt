-- ===== src/Rbc/Scheme/Wire.antt =====
-- The wire form of a scheme of ayatori-rbc/src/sharding.rs.
use ayatori.Prelude.{ℕ, ◌≤◌, some, none, ◌≡◌, ◌⊎◌, refl, inl, inr, arith, Bool-cases, leb}
use ayatori.Entities.Errors.{ok}
use ayatori.Rbc.Scheme.{Scheme, WireScheme, u32_max, to_u32, new_inner, from_wire, into_wire}

-- The fields are in the range that the wire form has.
abbrev pub FitsWire : Scheme → Type 0
FitsWire s =
    (s.original_shards ≤ u32_max)
    × (s.recovery_shards ≤ u32_max)
    × (s.shard_size ≤ u32_max)
    × (s.padding ≤ u32_max)

to_u32-cases :
    (n : ℕ) → ((n ≤ u32_max) × (to_u32 n ≡ some n)) ⊎ ((¬ (n ≤ u32_max)) × (to_u32 n ≡ none))
unfolding to_u32
to_u32-cases n = elim (Bool-cases (leb n u32_max)) [
  | inl e ↦ inl (ground arith, rw e refl)
  | inr e ↦ inr (ground arith, rw e refl)
]

-- A scheme that the constructor accepts either fits the wire form, and is then taken back from it as
-- the same scheme, or does not fit it, and then putting it into that form panics.
pub into_wire-cases :
    (usize_max : ℕ) (s : Scheme)
    → new_inner usize_max s.original_shards s.recovery_shards s.shard_size s.padding ≡ ok s
    → (FitsWire s × (w : WireScheme) × (into_wire s ≡ some w) × (from_wire usize_max w ≡ ok s))
      ⊎ ((¬ FitsWire s) × (into_wire s ≡ none))
unfolding into_wire from_wire
into_wire-cases usize_max s accepted = elim (to_u32-cases s.original_shards) [
  | inr a ↦ inr (λ f. a.0 f.0, rw (a.1) refl)
  | inl a ↦ elim (to_u32-cases s.recovery_shards) [
    | inr b ↦ inr (λ f. b.0 f.1, rw (a.1, b.1) refl)
    | inl b ↦ elim (to_u32-cases s.shard_size) [
      | inr c ↦ inr (λ f. c.0 f.2, rw (a.1, b.1, c.1) refl)
      | inl c ↦ elim (to_u32-cases s.padding) [
        | inr d ↦ inr (λ f. d.0 f.3, rw (a.1, b.1, c.1, d.1) refl)
        | inl d ↦ inl ((a.0, b.0, c.0, d.0), wire, rw (a.1, b.1, c.1, d.1) refl, accepted)
      ]
    ]
  ]
]
  where
    wire : WireScheme
    wire = record {
      original_shards = s.original_shards;
      recovery_shards = s.recovery_shards;
      shard_size = s.shard_size;
      padding = s.padding;
    }
