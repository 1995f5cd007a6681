-- ===== src/Prelude/Modulo.antt =====
-- Remainders of numbers below twice the divisor, as the ring buffers use them.
use Prim.Native.Nat.{ℕ, ◌+◌, ◌-◌, ◌%◌, ◌≤◌, ◌<◌}
use mathlib.Core.Path.{◌≡◌, ap}
use mathlib.Core.Logic.{◌⊎◌, inl, inr}
use native.Mathlib.Nat.{mod-add-mod, mod-eq_of_lt, mod-eq-sub-mod}
use native.Mathlib.Decide.{dec_lt}
use native.Mathlib.Omega.{arith}

-- A number below `2 * c` is its own remainder, or is `c` too large.
pub mod_cases : (x c : ℕ) → x < c + c → ((x < c) × (x % c ≡ x)) ⊎ ((c ≤ x) × (x % c ≡ x - c))
mod_cases x c h = elim (dec_lt x c) [
  | yes p ↦ inl (p, mod-eq_of_lt p)
  | no p ↦ inr (
    (omega arith),
    omega (
      arith,
      mod-eq-sub-mod {n = x} {m = c} (omega arith),
      mod-eq_of_lt {n = x - c} {m = c} (omega arith),
    ),
  )
]

-- A position that goes on from another position, by `n`.
pub mod-shift : (h t s n c : ℕ) → h ≡ (t + s) % c → (h + n) % c ≡ (t + (s + n)) % c
mod-shift h t s n c e = rw (e, mod-add-mod) (ap (λ k. k % c) (omega arith))
