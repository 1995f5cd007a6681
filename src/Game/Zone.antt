-- ===== src/Game/Zone.antt =====
-- RIOIOCPServer/Contents/Zone.cpp and Player.cpp: what a job of a zone does.
-- `clock` is the time that the code reads, which may depend on all that happened before.
pub mod Same
pub mod View
pub mod Placed
pub mod Update
pub mod Hear
pub mod Sync
use rio_iocp_server.Prelude.{
  ℕ, Bool, true, false, List, [], ◌∷◌, ◌++◌, if◌then◌else◌, not, ◌==◌, ◌&&◌, ℤ, pos, ◌+ℤ◌, ◌-ℤ◌,
  wrap_int, Outcome, ok, has, insert,
}
use rio_iocp_server.Game.Position.{
  is_near, to_int, view_distance, view_distance_narrow, get_adjacent_sectors,
  get_narrow_adjacent_sectors,
}
use rio_iocp_server.Game.Defs.{
  Game, connected, Player, set_player, set_session, at, is_valid_player,
}
use rio_iocp_server.Game.Messages.{
  send_move_msg, send_enter_msg, send_leave_msg, send_move_result_msg, send_chat_msg,
  send_login_result_msg,
}
use rio_iocp_server.Game.Room.{get_player_sector_idx, insert_in_sector, erase_from_sector}

-- `IsNear` for the positions of two players.
abbrev pub near_players : Player → Player → ℕ → Bool
near_players p q view_dist =
    is_near (to_int p.info.pos_info.x) (to_int p.info.pos_info.y) (to_int q.info.pos_info.x)
      (to_int q.info.pos_info.y) view_dist

-- The players in the sectors of a list, as the two loops go through them.
unfoldable pub players_in : (ℕ → ℕ → List ℕ) → List (ℕ × ℕ) → List ℕ
players_in sectors [] = []
players_in sectors ((y, x) ∷ view) = sectors y x ++ players_in sectors view

-- Whether the loop of `MovePlayer` comes past its `continue`s.
unfoldable pub is_seen : Game → ℕ → ℕ → Bool
is_seen g id target =
    is_valid_player (g.players target)
    && not (id == target)
    && near_players (g.players id) (g.players target) view_distance

-- The messages about one player that is seen.
unfoldable pub meet : ℕ → ℕ → Game → Game
meet id target g =
    let to_target =
      if has id (g.players target).view_list
      then send_move_msg (g.players target).owner_session id (g.players id).info g
      else send_enter_msg (g.players target).owner_session id (g.players id).info g in
    if has target (g.players id).view_list
    then to_target
    else send_enter_msg (g.players id).owner_session target (g.players target).info to_target

-- The loop of `MovePlayer` over the players of the adjacent sectors, with the new view list.
unfoldable pub look_around : ℕ → List ℕ → List ℕ → Game → List ℕ × Game
look_around id [] new_view_list g = (new_view_list, g)
look_around id (target ∷ targets) new_view_list g =
    let skipped = look_around id targets new_view_list g in
    let seen = look_around id targets (insert target new_view_list) (meet id target g) in
    if is_seen g id target then seen else skipped

-- The messages about one player that is not seen any more.
unfoldable pub part : ℕ → ℕ → Game → Game
part id target g =
    let left = send_leave_msg (g.players id).owner_session target g in
    if has target g.members then send_leave_msg (g.players target).owner_session id left else left

-- The loop of `MovePlayer` over the old view list.
unfoldable pub look_back : ℕ → List ℕ → List ℕ → Game → Game
look_back id new_view_list [] g = g
look_back id new_view_list (target ∷ targets) g =
    let rest = look_back id new_view_list targets in
    if has target new_view_list then rest g else rest (part id target g)

-- The player goes to the sector of its position.
unfoldable pub change_sector : ℕ → Game → Game
change_sector id g =
    let player = g.players id in
    let (y, x) = get_player_sector_idx player in
    if (y == player.sector.0) && (x == player.sector.1) then g else record g {
      sectors = insert_in_sector (y, x) id (erase_from_sector player.sector id g.sectors);
      players = at id (record player { sector = (y, x) }) g.players;
    }

-- `m_serverProcessTime`, an `int`, of the session of a player.
abbrev pub set_process_time : ℕ → ℤ → Game → Game
set_process_time id time g =
    let h : ℕ = (g.players id).owner_session in
    set_session h (record (g.sessions h) { server_process_time = wrap_int time }) g

abbrev pub process_time : ℕ → Game → ℤ
process_time id g = (g.sessions (g.players id).owner_session).server_process_time

module _ (clock : Game → ℤ) where
  -- `MovePlayer` from the change of sector up to the new view list.
  unfoldable pub update_view : ℕ → Game → Game
  update_view id g =
      let moved = change_sector id g in
      let view = get_adjacent_sectors (get_player_sector_idx (moved.players id)) in
      let (new_view_list, met) = look_around id (players_in moved.sectors view) [] moved in
      let parted = look_back id new_view_list (met.players id).view_list met in
      set_player id (record (parted.players id) { view_list = new_view_list }) parted

  -- `MovePlayer`
  unfoldable pub zone_move_player : ℕ → Game → Outcome Game
  zone_move_player id g =
      let updated = update_view id (set_process_time id (clock g) g) in
      let timed = set_process_time id (clock updated -ℤ process_time id updated) updated in
      if not (is_valid_player (g.players id))
      then ok g
      else send_move_result_msg (clock timed) (timed.players id).owner_session timed

-- The loop of `Chat`.
unfoldable pub tell : ℕ → List ℕ → List ℕ → Game → Game
tell id message [] g = g
tell id message (target ∷ targets) g =
    let rest = tell id message targets in
    if is_valid_player (g.players target)
      && near_players (g.players id) (g.players target) view_distance_narrow
    then rest (
        send_chat_msg (g.players target).owner_session id (g.players id).info.player_str_id message
          g)
    else rest g

-- `Chat`
unfoldable pub zone_chat : ℕ → List ℕ → Game → Game
zone_chat id message g =
    let view = get_narrow_adjacent_sectors (get_player_sector_idx (g.players id)) in
    if not (is_valid_player (g.players id))
    then g
    else tell id message (players_in g.sectors view) g

-- `Login` of a zone, which nothing calls.
unfoldable pub zone_login : ℕ → Game → Outcome Game
zone_login id g =
    let player = g.players id in
    let idx = get_player_sector_idx player in
    send_login_result_msg player.owner_session true player.info.player_type (record g {
      sectors = insert_in_sector idx id g.sectors;
      login_cnt = g.login_cnt +ℤ pos 1;
      players = at id (record player { state = connected; sector = idx }) g.players;
    })

-- `Logout` of a zone, which nothing calls.
unfoldable pub zone_logout : ℕ → Game → Game
zone_logout id g = record g {
  sectors = erase_from_sector (get_player_sector_idx (g.players id)) id g.sectors;
}
