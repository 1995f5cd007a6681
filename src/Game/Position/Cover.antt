-- ===== src/Game/Position/Cover.antt =====
-- Room.cpp: the sectors that the loops over adjacent sectors visit, and the players that are near.
use rio_iocp_server.Prelude.{
  ℕ, ◌+◌, ◌*◌, ◌/◌, ◌∙◌, ap, leb, if◌then◌else◌, if_false, ltb_ℤ, ◌≤◌, ◌<◌, ◌≡◌, true, ℤ, pos,
  negsuc, pos_part, neg_part, ◌-ℤ◌, ◌-◌, ◌/ℤ◌, distance, arith, ltb→lt,
}
use rio_iocp_server.Game.Float.{float_of, round_float, quotient, int_of_quotient, int_of_quotient_ℤ}
use rio_iocp_server.Game.Float.Bounds.{round_float_lem}
use rio_iocp_server.Game.Position.Loops.{Among, within_reach}
use rio_iocp_server.Game.Position.{
  sector_size, sector_list_size, to_int, cell_idx, sector_idx, map_min, get_adjacent_sectors,
  get_narrow_adjacent_sectors, is_near,
}

cell_idx-lt : (width list_size : ℕ) (c : ℤ) → 0 < list_size → cell_idx width list_size c < list_size
unfolding cell_idx
cell_idx-lt width list_size c h = ground (arith, h)

-- From -20000 to 20000.
unfoldable pub IsInMap : ℤ → Type 0
IsInMap c = (pos_part c ≤ 1310720000) × (neg_part c ≤ 1310720000)

-- How far an `int` of a quotient is from the quotient.
int_of_quotient_lem :
    (n : ℕ)
    → n ≤ 2621441000
    → (int_of_quotient n 81920000 * 81920000 ≤ n + 256)
      × (n < (int_of_quotient n 81920000 + 1) * 81920000 + 256)
unfolding int_of_quotient quotient
int_of_quotient_lem n h =
    let (over, under) = round_float_lem (quotient n 81920000) in
    rest (quotient n 81920000) (round_float (quotient n 81920000)) over under (ground arith)
      (ground arith)
  where
    rest :
        (q r : ℕ)
        → r * 16777216 ≤ q * 16777217
        → q * 16777215 ≤ r * 16777216
        → q ≤ 2 * (n * 1099511627776 / 81920000) + 1
        → 2 * (n * 1099511627776 / 81920000) ≤ q
        → (r / 2199023255552 * 81920000 ≤ n + 256) × (n < (r / 2199023255552 + 1) * 81920000 + 256)
    rest q r over under most least = (omega (arith, over, most, h), omega (arith, under, least, h))

-- A coordinate, from the edge of the map.
from_edge : ℤ → ℕ
from_edge c = pos_part c + 1310720000 - neg_part c

from_edge_lem : (c : ℤ) → IsInMap c → c -ℤ map_min ≡ pos (from_edge c)
unfolding ◌-ℤ◌ IsInMap from_edge
from_edge_lem (pos m) h = ground arith
from_edge_lem (negsuc m) h = ground (arith, h.1)

clamp_lem :
    (j : ℕ)
    → (if ltb_ℤ (pos j) (pos 0) then 0 else (if leb 32 j then 31 else j))
      ≡ (if leb 32 j then 31 else j)
clamp_lem j = if_false (ltb_ℤ (pos j) (pos 0)) _ _ (ground arith)

-- The index of a coordinate, before the test for the last cell, is off by less than 2 ^ -16.
sector_idx_lem :
    (c : ℤ)
    → IsInMap c
    → (j : ℕ) × (cell_idx sector_size sector_list_size c ≡ (if leb 32 j then 31 else j))
      × (j * 81920000 ≤ from_edge c + 512)
      × (from_edge c < (j + 1) * 81920000 + 512)
unfolding cell_idx IsInMap from_edge float_of int_of_quotient_ℤ
sector_idx_lem c h =
    let (over, under) = round_float_lem (from_edge c) in
    let (most, least) =
      int_of_quotient_lem (round_float (from_edge c)) (omega (arith, over, h.0)) in
    (
      int_of_quotient (round_float (from_edge c)) 81920000,
      ap
            (λ z.
              let idx = int_of_quotient_ℤ (float_of z) 81920000 in
              if ltb_ℤ idx (pos 0) then 0 else (if leb 32 (pos_part idx) then 31 else pos_part idx))
            (from_edge_lem c h)
          ∙ clamp_lem (int_of_quotient (round_float (from_edge c)) 81920000),
      omega (arith, over, most, h.0),
      omega (arith, under, least, h.0),
    )

close :
    (a b : ℤ) (d : ℕ)
    → IsInMap a
    → IsInMap b
    → distance (to_int a) (to_int b) + 2 < d
    → from_edge a ≤ from_edge b + (d - 1) * 65536
unfolding to_int ◌/ℤ◌ from_edge IsInMap
close (pos m) (pos n) d ha hb h = ground (arith, ha, hb, h)
close (pos m) (negsuc n) d ha hb h = ground (arith, ha, hb, h)
close (negsuc m) (pos n) d ha hb h = ground (arith, ha, hb, h)
close (negsuc m) (negsuc n) d ha hb h = ground (arith, ha, hb, h)

-- Coordinates whose whole parts are less than `1250 * k - 2` apart are at most `k` cells apart.
near_cells :
    (a b : ℤ) (k : ℕ)
    → IsInMap a
    → IsInMap b
    → distance (to_int a) (to_int b) + 2 < 1250 * k
    → cell_idx sector_size sector_list_size a ≤ cell_idx sector_size sector_list_size b + k
near_cells a b k ha hb near =
    let (i, cell_a, low, _) = sector_idx_lem a ha in
    let (j, cell_b, _, high) = sector_idx_lem b hb in
    let apart = close a b (1250 * k) ha hb near in
    omega (arith, cell_a, cell_b, the_last i j k (omega (arith, low, high, apart, near)))
  where
    the_last :
        (i j k : ℕ) → i ≤ j + k → (if leb 32 i then 31 else i) ≤ (if leb 32 j then 31 else j) + k
    the_last i j k h = ground (arith, h)

distance_comm : (a b : ℤ) → distance a b ≡ distance b a
distance_comm a b = omega arith

squares : (a b d : ℕ) → a * a + b * b < d * d → a < d
squares a b d h = grind arith

is_near-axes :
    (x1 y1 x2 y2 : ℤ) (d : ℕ)
    → is_near x1 y1 x2 y2 d ≡ true
    → (distance x1 x2 < d) × (distance y1 y2 < d)
unfolding is_near
is_near-axes x1 y1 x2 y2 d h = (
  squares (distance x1 x2) (distance y1 y2) d (ltb→lt _ _ h),
  squares (distance y1 y2) (distance x1 x2) d (omega (arith, ltb→lt _ _ h)),
)

is_near-back :
    (x1 y1 x2 y2 : ℤ) (d : ℕ)
    → is_near x1 y1 x2 y2 d ≡ true
    → (distance x2 x1 < d) × (distance y2 y1 < d)
is_near-back x1 y1 x2 y2 d h =
    let axes = is_near-axes x1 y1 x2 y2 d h in
    (omega (arith, axes.0, distance_comm x1 x2), omega (arith, axes.1, distance_comm y1 y2))

sector_idx-lt : (c : ℤ) → cell_idx sector_size sector_list_size c < sector_list_size
sector_idx-lt c = cell_idx-lt sector_size sector_list_size c (omega arith)

-- Of two positions in the map that `IsNear` finds nearer than 2498, `GetAdjacentSectors` of the one
-- visits the sector of the other.
pub get_adjacent_sectors_lem :
    (y1 x1 y2 x2 : ℤ)
    → IsInMap y1 × IsInMap x1
    → IsInMap y2 × IsInMap x2
    → is_near (to_int x1) (to_int y1) (to_int x2) (to_int y2) 2498 ≡ true
    → Among (sector_idx y2 x2) (get_adjacent_sectors (sector_idx y1 x1))
get_adjacent_sectors_lem y1 x1 y2 x2 one two h =
    let (x12, y12) = is_near-axes (to_int x1) (to_int y1) (to_int x2) (to_int y2) 2498 h in
    let (x21, y21) = is_near-back (to_int x1) (to_int y1) (to_int x2) (to_int y2) 2498 h in
    within_reach 2 _ _ _ _ (near_cells y2 y1 2 two.0 one.0 (omega (arith, y21)))
      (near_cells y1 y2 2 one.0 two.0 (omega (arith, y12)))
      (near_cells x2 x1 2 two.1 one.1 (omega (arith, x21)))
      (near_cells x1 x2 2 one.1 two.1 (omega (arith, x12))) (sector_idx-lt y2) (sector_idx-lt x2)

-- Of two positions in the map that `IsNear` finds nearer than 1248, `GetNarrowAdjacentSectors` of the
-- one visits the sector of the other.
pub get_narrow_adjacent_sectors_lem :
    (y1 x1 y2 x2 : ℤ)
    → IsInMap y1 × IsInMap x1
    → IsInMap y2 × IsInMap x2
    → is_near (to_int x1) (to_int y1) (to_int x2) (to_int y2) 1248 ≡ true
    → Among (sector_idx y2 x2) (get_narrow_adjacent_sectors (sector_idx y1 x1))
get_narrow_adjacent_sectors_lem y1 x1 y2 x2 one two h =
    let (x12, y12) = is_near-axes (to_int x1) (to_int y1) (to_int x2) (to_int y2) 1248 h in
    let (x21, y21) = is_near-back (to_int x1) (to_int y1) (to_int x2) (to_int y2) 1248 h in
    within_reach 1 _ _ _ _ (near_cells y2 y1 1 two.0 one.0 (omega (arith, y21)))
      (near_cells y1 y2 1 one.0 two.0 (omega (arith, y12)))
      (near_cells x2 x1 1 two.1 one.1 (omega (arith, x21)))
      (near_cells x1 x2 1 one.1 two.1 (omega (arith, x12))) (sector_idx-lt y2) (sector_idx-lt x2)
