-- ===== src/Game/Messages.antt =====
-- The messages to clients: the `Send...` methods of RIOIOCPServer/Session/RioServerSession.cpp and
-- IocpServerSession.cpp, which are the same, and `BufferHandler` of PacketHandler.cpp.
-- `clock` is the time that the code reads, in microseconds.
use rio_iocp_server.Prelude.{
  ℕ, Bool, List, [], ◌∷◌, ◌++◌, if◌then◌else◌, not, ℤ, Outcome, ok, ◌>>=◌, deref,
}
use rio_iocp_server.RingBuffer.{RingBuffer}
use rio_iocp_server.NetBuffer.{create_net_buffer}
use rio_iocp_server.Game.Defs.{
  Game, PlayerInfo, Message, s2c_login_result, s2c_move, s2c_move_result, s2c_enter, s2c_leave,
  s2c_chat,
}

-- `Send` of the session, with the message that the buffer holds.
unfoldable pub send : ℕ → Message → Game → Game
send h m g =
    if (g.sessions h).is_connected then record g { outbox = g.outbox ++ (h, m) ∷ [] } else g

abbrev pub send_move_msg : ℕ → ℕ → PlayerInfo → Game → Game
send_move_msg h target_id info g =
    send h (s2c_move (g.sessions h).session_id target_id info.time_stamp info.pos_info) g

abbrev pub send_enter_msg : ℕ → ℕ → PlayerInfo → Game → Game
send_enter_msg h target_id info g =
    send h
      (s2c_enter (g.sessions h).session_id target_id info.time_stamp info.player_type
        info.player_str_id info.pos_info)
      g

abbrev pub send_leave_msg : ℕ → ℕ → Game → Game
send_leave_msg h target_id g = send h (s2c_leave (g.sessions h).session_id target_id) g

-- `m_ownPlayer->m_playerInfo`
unfoldable pub own_info : ℕ → Game → Outcome PlayerInfo
own_info h g = deref (g.sessions h).own_player >>= λ id. ok ((g.players id).info)

unfoldable pub send_login_result_msg : ℕ → Bool → ℤ → Game → Outcome Game
send_login_result_msg h result player_type g = own_info h g >>= λ info. ok (
    send h
      (s2c_login_result (g.sessions h).session_id result (g.sessions h).login_time player_type
        (g.sessions h).player_str_id info.pos_info)
      g)

unfoldable pub send_move_result_msg : ℤ → ℕ → Game → Outcome Game
send_move_result_msg clock h g =
    if not (g.sessions h).request_result
    then ok g
    else (own_info h g >>= λ info. ok (
        send h
          (s2c_move_result (g.sessions h).session_id info.time_stamp
            (g.sessions h).server_process_time (g.sessions h).send_time clock)
          g))

abbrev pub send_chat_msg : ℕ → ℕ → List ℕ → List ℕ → Game → Game
send_chat_msg h target_id player_str_id message g =
    send h (s2c_chat (g.sessions h).session_id target_id player_str_id message) g

-- `PROTO_ID` (RIOIOCPServer/Protocol/ProtoId.h) of the message that `CreateNetBuffer` is given.
abbrev pub proto_id : Message → ℕ
proto_id (s2c_login_result _ _ _ _ _ _) = 2
proto_id (s2c_move_result _ _ _ _ _) = 5
proto_id (s2c_move _ _ _ _) = 6
proto_id (s2c_enter _ _ _ _ _ _) = 7
proto_id (s2c_leave _ _) = 8
proto_id (s2c_chat _ _ _ _) = 12

-- `BufferHandler::CreateNetBuffer`; `serialize` is that of the generated message.
unfoldable pub create_buffer : (Message → List ℕ) → Message → RingBuffer
create_buffer serialize m = create_net_buffer (serialize m) (proto_id m)
