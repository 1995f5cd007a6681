-- ===== src/DummyClient/Moves.antt =====
-- `MoveComponent` of DummyClient/Session/ClientSession.h and ClientSession.cpp.
-- Coordinates and velocities are whole numbers of 65536ths, as in the room of the server; a quotient is
-- cut to one. The two draws of `uniform_int_distribution(-1, 1)` and `sqrtf` are parameters.
pub mod Bounds
use rio_iocp_server.Prelude.{
  ℕ, suc, ◌+◌, ◌-◌, ◌*◌, ◌||◌, if◌then◌else◌, ◌==◌, ℤ, pos, negsuc, pos_part, neg_part, sub_ℕ, ◌+ℤ◌,
  ◌/ℤ◌, ltb_ℤ,
}
use rio_iocp_server.Game.Defs.{PosInfo}
use rio_iocp_server.Game.Position.{unit}

-- A product of an integer and a number.
unfoldable pub scale : ℤ → ℕ → ℤ
scale (pos m) n = pos (m * n)
scale (negsuc m) n = sub_ℕ 0 (suc m * n)

-- 19900 and -19900, as coordinates, and `m_speed`.
abbrev pub edge : ℕ
edge = 19900 * 65536

abbrev pub right_edge : ℤ
right_edge = pos edge

abbrev pub left_edge : ℤ
left_edge = negsuc (edge - 1)

abbrev pub speed : ℕ
speed = 300

-- `GetNewDirection` for one coordinate: the draw, unless the client is too far out.
unfoldable pub new_direction : ℤ → ℤ → ℤ
new_direction draw coordinate =
    if ltb_ℤ coordinate left_edge
    then pos 1
    else (if ltb_ℤ right_edge coordinate then negsuc 0 else draw)

abbrev pub magnitude : ℤ → ℕ
magnitude d = pos_part d + neg_part d

-- One coordinate of the velocity, in the direction `d` when the other coordinate goes to `other`.
unfoldable pub velocity : (ℕ → ℕ) → ℤ → ℤ → ℤ
velocity sqrtf d other =
    let sum : ℕ = sqrtf ((magnitude d * magnitude d + magnitude other * magnitude other) * unit) in
    if (magnitude d == 0) || (magnitude other == 0)
    then scale d unit
    else scale d (unit * unit) /ℤ sum

-- `UpdateVelocityByNewDirection`; the draws have y first.
unfoldable pub update_velocity_by_new_direction : (ℕ → ℕ) → ℤ × ℤ → PosInfo → PosInfo
update_velocity_by_new_direction sqrtf (draw_y, draw_x) p =
    let dy = new_direction draw_y p.y in
    let dx = new_direction draw_x p.x in
    record p { vx = velocity sqrtf dx dy; vy = velocity sqrtf dy dx }

-- `UpdateNewPosition`, with a whole `deltaTime`.
unfoldable pub update_new_position : ℕ → PosInfo → PosInfo
update_new_position delta_time p = record p {
  x = p.x +ℤ scale p.vx (speed * delta_time);
  y = p.y +ℤ scale p.vy (speed * delta_time);
}

-- `Update`
unfoldable pub update : (ℕ → ℕ) → ℤ × ℤ → ℕ → PosInfo → PosInfo
update sqrtf draws delta_time p =
    update_velocity_by_new_direction sqrtf draws (update_new_position delta_time p)
