-- ===== src/Rbc/Scheme/Rounding.antt =====
-- The rounding in `Scheme::new` of ayatori-rbc/src/sharding.rs.
use ayatori.Prelude.{
  ℕ, zero, suc, ◌+◌, ◌*◌, ◌/◌, ◌%◌, ◌≤◌, ◌<◌, ◌≡◌, ◌⊎◌, refl, ap, inl, inr, arith, Bool-cases, ◌==◌,
  leb,
}
use native.Mathlib.Nat.{div-add-mod', mod-lt}
use ayatori.Entities.Errors.{RuntimeError, failed, ok, err}
use ayatori.Rbc.Scheme.{div_ceil, ok_or, checked_add, even_size}

next_multiple : (q b : ℕ) → (q + 1) * b ≡ q * b + b
next_multiple q b = grind arith

below_multiple : (q b : ℕ) → 1 ≤ b → q ≤ q * b
below_multiple zero b h = omega arith
below_multiple (suc q) b h = omega (arith, below_multiple q b h, next_multiple q b)

pub div_ceil_lem :
    (a b : ℕ)
    → 1 ≤ b
    → (a ≤ div_ceil a b * b) × (div_ceil a b * b < a + b) × (div_ceil a b ≤ div_ceil a b * b)
unfolding div_ceil
div_ceil_lem a b h = elim (Bool-cases (a % b == 0)) [
  | inl e ↦ rw e (
    ground (arith, div-add-mod' a b),
    ground (arith, h, div-add-mod' a b),
    below_multiple (a / b) b h,
  )
  | inr e ↦ rw e (
    omega (arith, div-add-mod' a b, mod-lt a h, next_multiple (a / b) b),
    ground (arith, div-add-mod' a b, next_multiple (a / b) b),
    below_multiple (a / b + 1) b h,
  )
]

pub rounded_bounds :
    (n t m : ℕ)
    → 1 ≤ t
    → (m ≡ div_ceil n t) ⊎ (m ≡ div_ceil n t + 1)
    → (n ≤ m * t) × (m * t < n + 2 * t)
rounded_bounds n t m h (inl p) = omega (arith, h, ap (λ x. x * t) p, div_ceil_lem n t h)
rounded_bounds n t m h (inr p) =
    omega (arith, h, ap (λ x. x * t) p, next_multiple (div_ceil n t) t, div_ceil_lem n t h)

module _ (usize_max : ℕ) where
  pub even_size_lem :
      (n : ℕ)
      → ((m : ℕ) × (even_size usize_max n ≡ ok m) × (m % 2 ≡ 0) × ((m ≡ n) ⊎ (m ≡ n + 1)))
        ⊎ ((e : RuntimeError) × (even_size usize_max n ≡ err e) × (usize_max < n + 1))
  unfolding even_size checked_add ok_or
  even_size_lem n = elim (Bool-cases (n % 2 == 0)) [
    | inl e ↦ inl (n, rw e refl, ground arith, inl refl)
    | inr e ↦ elim (Bool-cases (leb (n + 1) usize_max)) [
      | inl f ↦ inl (n + 1, rw (e, f) refl, ground arith, inr refl)
      | inr f ↦ inr (failed "The resulting shard size is too large", rw (e, f) refl, ground arith)
    ]
  ]
