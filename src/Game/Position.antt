-- ===== src/Game/Position.antt =====
-- Where a player is (RIOIOCPServer/Contents/Room.h, Room.cpp and Zone.cpp): zones, sectors and distances.
-- A coordinate is a `float` that is a whole number of 65536ths, as each of 128 and more is.
pub mod Loops
pub mod Cover
use rio_iocp_server.Prelude.{
  ℕ, ◌+◌, ◌-◌, ◌*◌, ◌/◌, Bool, List, [], ◌∷◌, ◌++◌, if◌then◌else◌, ltb, leb, ◌||◌, tabulate, ℤ, pos,
  negsuc, pos_part, sub_ℕ, ◌+ℤ◌, ◌-ℤ◌, ◌/ℤ◌, ltb_ℤ, distance,
}
use rio_iocp_server.Game.Float.{float_of, int_of_quotient_ℤ}

-- The constants of `Room`.
abbrev pub view_distance : ℕ
view_distance = 2500

abbrev pub view_distance_narrow : ℕ
view_distance_narrow = 1250

abbrev pub map_size : ℕ
map_size = 40000

-- `MAP_MIN_X` and `MAP_MIN_Y`, which are -20000, as coordinates.
abbrev pub map_min : ℤ
map_min = negsuc (20000 * 65536 - 1)

abbrev pub zone_size : ℕ
zone_size = 10000

abbrev pub sector_size : ℕ
sector_size = 1250

-- `m_zoneListSizeX`, and `m_sectorListSizeX`; those for `Y` are the same.
abbrev pub zone_list_size : ℕ
zone_list_size = map_size / zone_size

abbrev pub sector_list_size : ℕ
sector_list_size = map_size / sector_size

abbrev pub unit : ℕ
unit = 65536

-- A `float` made an `int`.
unfoldable pub to_int : ℤ → ℤ
to_int coordinate = coordinate /ℤ unit

-- One coordinate of `GetPlayerZoneIdx` and `GetPlayerSectorIdx`, for cells that are `width` wide. The
-- difference and the quotient are rounded to `float`, and the quotient is then made an `int`; one
-- that is too large for an `int`, which is undefined in C++, is taken as it is.
unfoldable pub cell_idx : ℕ → ℕ → ℤ → ℕ
cell_idx width list_size coordinate =
    let idx = int_of_quotient_ℤ (float_of (coordinate -ℤ map_min)) (width * unit) in
    if ltb_ℤ idx (pos 0)
    then 0
    else (if leb list_size (pos_part idx) then list_size - 1 else pos_part idx)

-- A pair of indices has y first.
abbrev pub zone_idx : ℤ → ℤ → ℕ × ℕ
zone_idx y x = (cell_idx zone_size zone_list_size y, cell_idx zone_size zone_list_size x)

abbrev pub sector_idx : ℤ → ℤ → ℕ × ℕ
sector_idx y x = (cell_idx sector_size sector_list_size y, cell_idx sector_size sector_list_size x)

-- The test for a cell that is not in the room.
unfoldable pub is_outside : ℤ → ℤ → Bool
is_outside ny nx =
    ltb_ℤ nx (pos 0)
    || leb sector_list_size (pos_part nx)
    || (ltb_ℤ ny (pos 0) || leb sector_list_size (pos_part ny))

-- The inner loop of `GetAdjacentSectors`, over `dx`.
unfoldable pub adjacent_row : ℕ × ℕ → ℤ → List ℤ → List (ℕ × ℕ)
adjacent_row (y, x) dy [] = []
adjacent_row (y, x) dy (dx ∷ dxs) =
    let ny = pos y +ℤ dy in
    let nx = pos x +ℤ dx in
    let rest = adjacent_row (y, x) dy dxs in
    if is_outside ny nx then rest else (pos_part ny, pos_part nx) ∷ rest

-- The outer loop, over `dy`.
unfoldable pub adjacent_rows : ℕ × ℕ → List ℤ → List ℤ → List (ℕ × ℕ)
adjacent_rows idx [] dxs = []
adjacent_rows idx (dy ∷ dys) dxs = adjacent_row idx dy dxs ++ adjacent_rows idx dys dxs

-- `dy` from `reach` down to `-reach`, and `dx` from `-reach` up to `reach`.
abbrev pub downwards : ℕ → List ℤ
downwards reach = tabulate (2 * reach + 1) (λ i. sub_ℕ reach i)

abbrev pub upwards : ℕ → List ℤ
upwards reach = tabulate (2 * reach + 1) (λ i. sub_ℕ i reach)

abbrev pub get_adjacent_sectors : ℕ × ℕ → List (ℕ × ℕ)
get_adjacent_sectors idx = adjacent_rows idx (downwards 2) (upwards 2)

abbrev pub get_narrow_adjacent_sectors : ℕ × ℕ → List (ℕ × ℕ)
get_narrow_adjacent_sectors idx = adjacent_rows idx (downwards 1) (upwards 1)

-- `IsNear`: `sqrt(pow(posX1 - posX2, 2) + pow(posY1 - posY2, 2)) < viewDist`, with both sides squared.
unfoldable pub is_near : ℤ → ℤ → ℤ → ℤ → ℕ → Bool
is_near pos_x1 pos_y1 pos_x2 pos_y2 view_dist =
    let dx : ℕ = distance pos_x1 pos_x2 in
    let dy : ℕ = distance pos_y1 pos_y2 in ltb (dx * dx + dy * dy) (view_dist * view_dist)
