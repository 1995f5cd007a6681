-- ===== src/Game/Zone/Update.antt =====
-- `MovePlayer` of Zone.cpp: the new view list has the players that are near.
use rio_iocp_server.Prelude.{ℕ, Bool, true, List, ◌≡◌, not, ◌&&◌, ◌==◌, has}
use rio_iocp_server.Game.Defs.{Game, Player, PlayerInfo, is_valid_player}
use rio_iocp_server.Game.Position.{view_distance, is_near, to_int, get_adjacent_sectors}
use rio_iocp_server.Game.Position.Cover.{IsInMap}
use rio_iocp_server.Game.Room.{get_player_sector_idx}
use rio_iocp_server.Game.Room.Placed.{Placed}
use rio_iocp_server.Game.Zone.{change_sector, players_in, near_players}

-- The player with the sector of its position.
settled : Player → Player
settled p = record p { sector = get_player_sector_idx p }

-- `is_seen` of the players.
sees : (ℕ → Player) → ℕ → ℕ → Bool
sees f id t = is_valid_player (f t) && not (id == t) && near_players (f id) (f t) view_distance

abbrev IsClear : PlayerInfo → PlayerInfo → Type 0
IsClear a b =
    is_near (to_int a.pos_info.x) (to_int a.pos_info.y) (to_int b.pos_info.x) (to_int b.pos_info.y)
        view_distance
      ≡ true
    → (IsInMap a.pos_info.y × IsInMap a.pos_info.x)
      × (IsInMap b.pos_info.y × IsInMap b.pos_info.x)
      × (is_near (to_int a.pos_info.x) (to_int a.pos_info.y) (to_int b.pos_info.x)
            (to_int b.pos_info.y) 2498
          ≡ true)

-- The position is in the map.
abbrev pub IsOnMap : Player → Type 0
IsOnMap p = IsInMap p.info.pos_info.y × IsInMap p.info.pos_info.x

unfoldable pub Settled : Player → Type 0
Settled p = p.sector ≡ get_player_sector_idx p

module _ (id t : ℕ) (g : Game) (p : Placed g) (member : has id g.members ≡ true) where
  around : List ℕ
  around =
      players_in (change_sector id g).sectors
        (get_adjacent_sectors (get_player_sector_idx ((change_sector id g).players id)))
