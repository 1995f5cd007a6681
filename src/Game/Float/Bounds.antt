-- ===== src/Game/Float/Bounds.antt =====
-- How far the `float` arithmetic of Room.cpp rounds.
use rio_iocp_server.Prelude.{
  ℕ, zero, suc, ◌+◌, ◌*◌, ◌/◌, ◌%◌, ◌≤◌, ◌<◌, ◌≡◌, ◌⊎◌, inl, inr, refl, Bool, true, false,
  if◌then◌else◌, if_lem, ltb, ltb→ge, ◌==◌, arith,
}
use rio_iocp_server.Game.Float.{spacing, nearest, round_float}

spacing_lem :
    (fuel n : ℕ) → (spacing fuel n ≡ 1) ⊎ ((0 < spacing fuel n) × (spacing fuel n * 8388608 ≤ n))
unfolding spacing
spacing_lem zero n = inl refl
spacing_lem (suc fuel) n =
    let half = spacing_lem fuel (n / 2) in
    if_lem (λ s. (s ≡ 1) ⊎ ((0 < s) × (s * 8388608 ≤ n))) (ltb n 16777216) 1
      (2 * spacing fuel (n / 2)) (λ small. inl refl)
      (λ large. inr (wider half (ltb→ge n 16777216 large)))
  where
    wider :
        (spacing fuel (n / 2) ≡ 1)
          ⊎ ((0 < spacing fuel (n / 2)) × (spacing fuel (n / 2) * 8388608 ≤ n / 2))
        → 16777216 ≤ n
        → (0 < 2 * spacing fuel (n / 2)) × (2 * spacing fuel (n / 2) * 8388608 ≤ n)
    wider (inl one) h = (omega (arith, one), omega (arith, one, h))
    wider (inr (some, le)) h = (omega (arith, some), omega (arith, le))

rounded :
    (up : Bool) (b r step n : ℕ)
    → n ≡ b * step + r
    → r < step
    → (up ≡ true → step ≤ 2 * r)
    → (up ≡ false → 2 * r ≤ step)
    → (2 * (if up then (b + 1) * step else b * step) ≤ 2 * n + step)
      × (2 * n ≤ 2 * (if up then (b + 1) * step else b * step) + step)
rounded true b r step n e l h k = (grind (arith, e, l), grind (arith, e, h refl))
rounded false b r step n e l h k = (omega (arith, e), omega (arith, e, k refl))

tie :
    (b r step : ℕ)
    → ((if 2 * r == step then (b % 2 == 1) else ltb step (2 * r)) ≡ true → step ≤ 2 * r)
      × ((if 2 * r == step then (b % 2 == 1) else ltb step (2 * r)) ≡ false → 2 * r ≤ step)
tie b r step = (λ h. ground (arith, h), λ h. ground (arith, h))

parts : (n step : ℕ) → 0 < step → (n ≡ n / step * step + n % step) × (n % step < step)
parts n step h = (grind (arith, h), omega (arith, h))

nearest_lem :
    (step n : ℕ)
    → 0 < step
    → (2 * nearest step n ≤ 2 * n + step) × (2 * n ≤ 2 * nearest step n + step)
unfolding nearest
nearest_lem step n h =
    let (e, l) = parts n step h in
    let (over, under) = tie (n / step) (n % step) step in
    rounded _ (n / step) (n % step) step n e l over under

-- A rounded number is off by at most 2 ^ -24 of the number.
pub round_float_lem :
    (n : ℕ) → (round_float n * 16777216 ≤ n * 16777217) × (n * 16777215 ≤ round_float n * 16777216)
unfolding round_float
round_float_lem n = elim (spacing_lem 160 n) [
  | inl one ↦
      let (over, under) = nearest_lem (spacing 160 n) n (omega (arith, one)) in
      (omega (arith, one, over), omega (arith, one, under))
  | inr (some, le) ↦
      let (over, under) = nearest_lem (spacing 160 n) n some in
      (omega (arith, le, over), omega (arith, le, under))
]
