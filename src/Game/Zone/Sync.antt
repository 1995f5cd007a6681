-- ===== src/Game/Zone/Sync.antt =====
-- `MovePlayer` of Zone.cpp: the messages that keep the clients' views in step.
pub mod Loops
use rio_iocp_server.Prelude.{
  ℕ, Bool, true, false, List, [], ◌∷◌, ◌++◌, ◌≡◌, refl, sym, ap, ap₂, ◌∙◌, if◌then◌else◌, if_lem,
  if_true, if_false, not, has, insert, append_assoc, append-nil, ℤ,
}
use rio_iocp_server.Game.Defs.{
  Game, Player, PlayerInfo, Message, s2c_move, s2c_enter, s2c_leave, ServerSession, is_valid_player,
}
use rio_iocp_server.Game.Position.{get_adjacent_sectors}
use rio_iocp_server.Game.Messages.{send, send_move_msg, send_enter_msg, send_leave_msg}
use rio_iocp_server.Game.Room.{get_player_sector_idx}
use rio_iocp_server.Game.Room.Sectors.{at_self}
use rio_iocp_server.Game.Zone.{
  change_sector, update_view, players_in, is_seen, meet, look_around, part, look_back,
}

-- A message for a session, when it is open.
unfoldable pub posted : Game → ℕ → Message → List (ℕ × Message)
posted g h m = if (g.sessions h).is_connected then (h, m) ∷ [] else []

abbrev pub move_to : Game → ℕ → ℕ → Message
move_to g h id =
    s2c_move (g.sessions h).session_id id (g.players id).info.time_stamp
      (g.players id).info.pos_info

abbrev pub enter_to : Game → ℕ → ℕ → Message
enter_to g h id =
    s2c_enter (g.sessions h).session_id id (g.players id).info.time_stamp
      (g.players id).info.player_type (g.players id).info.player_str_id (g.players id).info.pos_info

abbrev pub leave_to : Game → ℕ → ℕ → Message
leave_to g h id = s2c_leave (g.sessions h).session_id id

-- A player that is near is told of the move, or of the player when it did not know it, and the player
-- is told of it when it is new.
unfoldable pub meet_messages : Game → ℕ → ℕ → List (ℕ × Message)
meet_messages g id t =
    let owner = (g.players t).owner_session in
    posted g owner
      (if has id (g.players t).view_list then move_to g owner id else enter_to g owner id)
    ++ (if has t (g.players id).view_list
        then []
        else posted g (g.players id).owner_session (enter_to g (g.players id).owner_session t))

unfoldable pub met_messages : Game → ℕ → List ℕ → List (ℕ × Message)
met_messages g id [] = []
met_messages g id (t ∷ targets) =
    let rest = met_messages g id targets in
    if is_seen g id t then meet_messages g id t ++ rest else rest

-- Both sides of a player that is not near any more are told, the other one when it is in the room.
unfoldable pub part_messages : Game → ℕ → ℕ → List (ℕ × Message)
part_messages g id t =
    posted g (g.players id).owner_session (leave_to g (g.players id).owner_session t)
    ++ (if has t g.members
        then posted g (g.players t).owner_session (leave_to g (g.players t).owner_session id)
        else [])

unfoldable pub left_messages : Game → ℕ → List ℕ → List ℕ → List (ℕ × Message)
left_messages g id new_view_list [] = []
left_messages g id new_view_list (t ∷ targets) =
    let rest = left_messages g id new_view_list targets in
    if has t new_view_list then rest else part_messages g id t ++ rest
