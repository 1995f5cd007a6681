-- ===== src/DummyClient/Moves/Bounds.antt =====
-- Where a client of the stress test can be after any number of moves.
use rio_iocp_server.Prelude.{
  ℕ, zero, suc, ◌+◌, ◌*◌, ◌/◌, ◌≤◌, ◌<◌, ◌≡◌, List, [], ◌∷◌, All, arith, ℤ, pos, negsuc, pos_part,
  neg_part, ◌+ℤ◌, ◌/ℤ◌,
}
use native.Mathlib.Nat.{div-le_of_le-mul}
use rio_iocp_server.Game.Defs.{PosInfo}
use rio_iocp_server.Game.Position.{unit}
use rio_iocp_server.DummyClient.Moves.{
  magnitude, edge, speed, scale, new_direction, velocity, update, update_new_position,
  update_velocity_by_new_direction,
}

-- What a client may be drawn: -1, 0 or 1.
abbrev pub IsDraw : ℤ → Type 0
IsDraw d = (pos_part d ≤ 1) × (neg_part d ≤ 1)

-- A coordinate is at most 300 beyond the edge, its velocity is at most 1, and beyond the edge it does
-- not lead further out.
abbrev pub OnAxis : ℤ → ℤ → Type 0
OnAxis c v =
    (pos_part c ≤ edge + speed * unit)
    × (neg_part c ≤ edge + speed * unit)
    × (pos_part v ≤ unit)
    × (neg_part v ≤ unit)
    × (edge < pos_part c → pos_part v ≡ 0)
    × (edge < neg_part c → neg_part v ≡ 0)

abbrev pub IsInside : PosInfo → Type 0
IsInside p = OnAxis p.x p.vx × OnAxis p.y p.vy

-- The moves of a client, each with its two draws.
abbrev pub updates : (ℕ → ℕ) → List (ℤ × ℤ) → PosInfo → PosInfo
updates sqrtf [] p = p
updates sqrtf (draws ∷ rest) p = updates sqrtf rest (update sqrtf draws 1 p)

moved :
    (c v : ℤ)
    → OnAxis c v
    → (pos_part (c +ℤ scale v (speed * 1)) ≤ edge + speed * unit)
      × (neg_part (c +ℤ scale v (speed * 1)) ≤ edge + speed * unit)
unfolding ◌+ℤ◌ scale
moved c v h = ground (arith, h)

new_direction-IsDraw : (d c : ℤ) → IsDraw d → IsDraw (new_direction d c)
unfolding new_direction
new_direction-IsDraw d c h = ground (arith, h)

-- What the code relies on of `sqrtf`: the root of a number that is at least 1 is at least 1.
abbrev pub IsRoot : (ℕ → ℕ) → Type 0
IsRoot sqrtf = (n : ℕ) → unit ≤ n → unit ≤ sqrtf n

part : (n : ℕ) → unit ≤ n → (unit * unit) / n ≤ unit
part n h = div-le_of_le-mul n (omega (arith, h))

velocity-small :
    (sqrtf : ℕ → ℕ) (d e : ℤ)
    → IsRoot sqrtf
    → IsDraw d
    → (pos_part (velocity sqrtf d e) ≤ unit * pos_part d)
      × (neg_part (velocity sqrtf d e) ≤ unit * neg_part d)
unfolding velocity scale ◌/ℤ◌
velocity-small sqrtf (pos zero) e one h = ground (arith, h)
velocity-small sqrtf (pos (suc zero)) e one h =
    let n : ℕ = magnitude e in
    let small = part (sqrtf ((1 + n * n) * unit)) (one _ (omega arith)) in ground (arith, small)
velocity-small sqrtf (pos (suc (suc d))) e one h = absurd (omega (arith, h))
velocity-small sqrtf (negsuc zero) e one h =
    let n : ℕ = magnitude e in
    let small = part (sqrtf ((1 + n * n) * unit)) (one _ (omega arith)) in ground (arith, small)
velocity-small sqrtf (negsuc (suc d)) e one h = absurd (omega (arith, h))

turned :
    (d c : ℤ)
    → (edge < pos_part c → pos_part (new_direction d c) ≡ 0)
      × (edge < neg_part c → neg_part (new_direction d c) ≡ 0)
unfolding new_direction
turned d (pos n) = ground arith
turned d (negsuc n) = ground arith

on_axis :
    (sqrtf : ℕ → ℕ) (draw other c : ℤ)
    → IsRoot sqrtf
    → IsDraw draw
    → pos_part c ≤ edge + speed * unit
    → neg_part c ≤ edge + speed * unit
    → OnAxis c (velocity sqrtf (new_direction draw c) other)
on_axis sqrtf draw other c root h up down =
    let d : ℤ = new_direction draw c in
    let v = velocity-small sqrtf d other root (new_direction-IsDraw draw c h) in
    let one = new_direction-IsDraw draw c h in
    let back = turned draw c in
    (
      up,
      down,
      omega (arith, v, one),
      omega (arith, v, one),
      λ out. omega (arith, v, back.0 out),
      λ out. omega (arith, v, back.1 out),
    )

update-IsInside :
    (sqrtf : ℕ → ℕ) (draws : ℤ × ℤ) (p : PosInfo)
    → IsRoot sqrtf
    → IsDraw draws.0 × IsDraw draws.1
    → IsInside p
    → IsInside (update sqrtf draws 1 p)
unfolding update update_new_position update_velocity_by_new_direction
update-IsInside sqrtf (dy, dx) p root (hy, hx) (on_x, on_y) =
    let (right, left) = moved p.x p.vx on_x in
    let (top, bottom) = moved p.y p.vy on_y in
    (on_axis sqrtf dx _ _ root hx right left, on_axis sqrtf dy _ _ root hy top bottom)

-- A client of the stress test that starts inside its field stays there, whatever it is drawn: after any
-- number of moves, each with draws of -1, 0 or 1, both coordinates are at most 20200 from the centre,
-- both velocities are at most 1, and a client that is more than 19900 out does not move further out.
-- The root that `sqrtf` gives for a number that is at least 1 is taken to be at least 1.
pub updates-IsInside :
    (sqrtf : ℕ → ℕ) (moves : List (ℤ × ℤ)) (p : PosInfo)
    → IsRoot sqrtf
    → All (λ (draws : ℤ × ℤ). IsDraw draws.0 × IsDraw draws.1) moves
    → IsInside p
    → IsInside (updates sqrtf moves p)
updates-IsInside sqrtf [] p root hs h = h
updates-IsInside sqrtf (draws ∷ moves) p root (d, ds) h =
    updates-IsInside sqrtf moves (update sqrtf draws 1 p) root ds
      (update-IsInside sqrtf draws p root d h)
