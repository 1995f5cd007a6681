-- ===== src/Game/Room.antt =====
-- RIOIOCPServer/Contents/Room.cpp: `Login`, `Logout`, `MovePlayer` and `Chat`.
-- A sector is visited by its indices, and the model does not check them: all are those of positions.
pub mod Sectors
pub mod Placed
pub mod Kept
use rio_iocp_server.Prelude.{
  ℕ, Bool, true, List, [], ◌∷◌, ◌++◌, if◌then◌else◌, ◌==◌, ℤ, pos, ◌+ℤ◌, ◌-ℤ◌, Outcome, ok, insert,
  erase,
}
use rio_iocp_server.Game.Position.{sector_idx, zone_idx}
use rio_iocp_server.Game.Defs.{
  Game, Player, Job, move_job, chat_job, connected, disconnected, at, at_idx, set_player,
}
use rio_iocp_server.Game.Messages.{send_login_result_msg}

-- `GetPlayerSectorIdx` and `GetPlayerZoneIdx`
abbrev pub get_player_sector_idx : Player → ℕ × ℕ
get_player_sector_idx p = sector_idx p.info.pos_info.y p.info.pos_info.x

abbrev pub get_player_zone_idx : Player → ℕ × ℕ
get_player_zone_idx p = zone_idx p.info.pos_info.y p.info.pos_info.x

-- `m_sectors[y][x]->m_players.Insert(player)` and `Erase(player)`
abbrev pub insert_in_sector : ℕ × ℕ → ℕ → (ℕ → ℕ → List ℕ) → ℕ → ℕ → List ℕ
insert_in_sector (y, x) id sectors = at_idx (y, x) (insert id (sectors y x)) sectors

abbrev pub erase_from_sector : ℕ × ℕ → ℕ → (ℕ → ℕ → List ℕ) → ℕ → ℕ → List ℕ
erase_from_sector (y, x) id sectors = at_idx (y, x) (erase id (sectors y x)) sectors

-- `Login` without its message.
unfoldable pub enter_room : ℕ → Game → Game
enter_room id g =
    let player = g.players id in
    let idx = get_player_sector_idx player in
    record g {
      login_cnt = g.login_cnt +ℤ pos 1;
      sectors = insert_in_sector idx id g.sectors;
      members = insert id g.members;
      players = at id (record player { state = connected; sector = idx }) g.players;
    }

-- `Login`
unfoldable pub login : ℕ → Game → Outcome Game
login id g =
    send_login_result_msg (g.players id).owner_session true (g.players id).info.player_type
      (enter_room id g)

-- `Logout`
unfoldable pub logout : ℕ → Game → Game
logout id g =
    let player = g.players id in
    record g {
      sectors = erase_from_sector player.sector id g.sectors;
      members = erase id g.members;
      players = at id (record player { state = disconnected }) g.players;
      login_cnt = g.login_cnt -ℤ pos 1;
    }

abbrev pub add_zone_job : ℕ × ℕ → Job → Game → Game
add_zone_job (y, x) job g = record g {
  zone_jobs = at_idx (y, x) (g.zone_jobs y x ++ job ∷ []) g.zone_jobs;
}

-- `MovePlayer`
abbrev pub move_player : ℕ → Game → Game
move_player id g = add_zone_job (get_player_zone_idx (g.players id)) (move_job id) g

-- `Chat`
abbrev pub chat : ℕ → List ℕ → Game → Game
chat id message g = add_zone_job (get_player_zone_idx (g.players id)) (chat_job id message) g
