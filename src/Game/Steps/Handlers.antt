-- ===== src/Game/Steps/Handlers.antt =====
-- PacketHandler.h and RioServerSession.cpp: the handlers of packets keep every player in the set of
-- the one sector that it has noted.
use rio_iocp_server.Prelude.{
  ℕ, ◌+◌, Bool, true, false, List, ◌≡◌, refl, Option, none, some, if_lem, not, ◌&&◌, ◌==◌, ltb, has,
  arith, subst, IfOk, deref, IfOk-bind, IfOk-bind_any, IfOk-imp,
}
use rio_iocp_server.Packet.{header_size, read_header}
use rio_iocp_server.Game.Defs.{Game, Player, disconnected, set_session, is_valid_player}
use rio_iocp_server.Game.Room.{login}
use rio_iocp_server.Game.Room.Sectors.{at_lem}
use rio_iocp_server.Game.Room.Placed.{Placed, enter_room-Placed}
use rio_iocp_server.Game.Room.Kept.{
  Kept, Kept-self, Kept-trans, set_player-Kept, set_session-Kept, Kept-Placed,
}
use rio_iocp_server.Game.Packets.{
  destroy, Outside, LoginPacket, MovePacket, ChatPacket, has_handler, is_id, new_player, leave_room,
  on_disconnected, disconnect, add_player, handle_login, handle_move, handle_logout, handle_chat,
  handle_message, handle_packet,
}
use rio_iocp_server.Game.Steps.Jobs.{send_login_result_msg-Kept, other_jobs, other_zone_jobs}

module _ (outside : Outside) where
  leave_room-Kept : (player : Option ℕ) (g : Game) → Kept g (leave_room player g)
  unfolding leave_room
  leave_room-Kept none g = Kept-self g
  leave_room-Kept (some id) g =
      if_lem (Kept g) (is_valid_player (g.players id)) _ _
        (λ e.
          Kept-trans
            (set_player-Kept id (record (g.players id) { state = disconnected }) g refl (λ h. e))
            (other_jobs _ _))
        (λ e. Kept-self g)

  pub destroy-Kept : (h : ℕ) (g : Game) → Kept g (destroy h g)
  unfolding destroy
  destroy-Kept h g = leave_room-Kept (g.sessions h).own_player g

  on_disconnected-Kept : (h : ℕ) (g : Game) → Kept g (on_disconnected h g)
  unfolding on_disconnected
  on_disconnected-Kept h g =
      Kept-trans (leave_room-Kept (g.sessions h).own_player g) (set_session-Kept h _ _)

  pub disconnect-Kept : (h : ℕ) (g : Game) → Kept g (disconnect outside h g)
  unfolding disconnect
  disconnect-Kept h g =
      let down = set_session h (record (g.sessions h) { is_connected = false }) g in
      if_lem (Kept g) (not (g.sessions h).is_connected) _ _ (λ e. Kept-self g)
        (λ e.
          if_lem (Kept g) (outside.set_linger down) _ _
            (λ e. Kept-trans (set_session-Kept h _ g) (on_disconnected-Kept h down))
            (λ e. set_session-Kept h _ g))

  fresh : (g : Game) → Placed g → ¬ (has (g.session_cnt + 1) g.members ≡ true)
  fresh g p h = omega (arith, p.known (g.session_cnt + 1) h)

  -- The new player is in no set, so that nothing that was known of the players changes.
  add_player-Placed :
      (h : ℕ) (pkt : LoginPacket) (g : Game) → Placed g → Placed (add_player outside h pkt g)
  unfolding add_player new_player
  add_player-Placed h pkt g p = record {
    noted = λ y x i there.
        at_lem (λ (q : Player). q.sector ≡ (y, x)) (g.session_cnt + 1) _ g.players i
          (λ e. absurd (new i e (p.entered y x i there))) (λ n. p.noted y x i there);
    entered = p.entered;
    listed = λ i m.
        at_lem (λ (q : Player). has i (g.sectors q.sector.0 q.sector.1) ≡ true) (g.session_cnt + 1)
          _ g.players i (λ e. absurd (new i e m)) (λ n. p.listed i m);
    valid = λ i.
        at_lem (λ (q : Player). is_valid_player q ≡ true → has i g.members ≡ true)
          (g.session_cnt + 1) _ g.players i (λ e v. ground (arith, v)) (λ n v. p.valid i v);
    known = λ i m. omega (arith, p.known i m);
  }
    where
      new : (i : ℕ) → i ≡ g.session_cnt + 1 → ¬ (has i g.members ≡ true)
      new i e m = fresh g p (subst (λ j. has j g.members ≡ true) e m)

  handle_login-Placed :
      (h : ℕ) (pkt : LoginPacket) (g : Game)
      → Placed g
      → IfOk (λ r. Placed r.1) (handle_login outside h pkt g)
  unfolding handle_login login add_player
  handle_login-Placed h pkt g p =
      let joined : Game = add_player outside h pkt g in
      let entered =
        enter_room-Placed (g.session_cnt + 1) joined (add_player-Placed h pkt g p) (fresh g p)
          (omega arith) in
      IfOk-bind Placed (λ r. Placed r.1) (login (g.session_cnt + 1) joined) _
        (IfOk-imp (Kept _) Placed (login (g.session_cnt + 1) joined) (λ g' k. Kept-Placed k entered)
          (send_login_result_msg-Kept _ true _ _))
        (λ g' q. q)

  handle_move-Kept :
      (h : ℕ) (pkt : MovePacket) (g : Game) → IfOk (λ r. Kept g r.1) (handle_move outside h pkt g)
  unfolding handle_move
  handle_move-Kept h pkt g =
      if_lem (IfOk (λ r. Kept g r.1)) (not (is_id pkt.session_id (g.sessions h).session_id)) _ _
        (λ e. Kept-self g)
        (λ e.
          IfOk-bind_any (λ r. Kept g r.1) (deref (g.sessions h).own_player) _
            (λ id.
              Kept-trans (set_player-Kept id _ g refl (λ v. v))
                (Kept-trans (set_session-Kept h _ _) (other_zone_jobs _ _ _))))

  handle_chat-Kept :
      (h : ℕ) (pkt : ChatPacket) (g : Game) → IfOk (λ r. Kept g r.1) (handle_chat outside h pkt g)
  unfolding handle_chat
  handle_chat-Kept h pkt g =
      if_lem (IfOk (λ r. Kept g r.1)) (not (is_id pkt.session_id (g.sessions h).session_id)) _ _
        (λ e. Kept-self g)
        (λ e.
          IfOk-bind_any (λ r. Kept g r.1) (deref (g.sessions h).own_player) _
            (λ id. other_zone_jobs _ _ g))

  handle_logout-Kept : (h : ℕ) (g : Game) → IfOk (λ r. Kept g r.1) (handle_logout outside h g)
  unfolding handle_logout
  handle_logout-Kept h g = Kept-trans (other_jobs _ g) (disconnect-Kept h _)

  handle_message-Placed :
      (proto_id h : ℕ) (message : List ℕ) (g : Game)
      → Placed g
      → IfOk (λ r. Placed r.1) (handle_message outside proto_id h message g)
  unfolding handle_message
  handle_message-Placed proto_id h message g p =
      let follows = λ (r : Bool × Game) (k : Kept g r.1). Kept-Placed k p in
      if_lem (IfOk (λ r. Placed r.1)) (proto_id == 0) _ _
        (λ e. handle_login-Placed h (outside.parse_login message) g p)
        (λ e.
          if_lem (IfOk (λ r. Placed r.1)) (proto_id == 9) _ _
            (λ e. IfOk-imp _ _ (handle_logout outside h g) follows (handle_logout-Kept h g))
            (λ e.
              if_lem (IfOk (λ r. Placed r.1)) (proto_id == 4) _ _
                (λ e.
                  IfOk-imp _ _ (handle_move outside h (outside.parse_move message) g) follows
                    (handle_move-Kept h (outside.parse_move message) g))
                (λ e.
                  if_lem (IfOk (λ r. Placed r.1)) (proto_id == 11) _ _
                    (λ e.
                      IfOk-imp _ _ (handle_chat outside h (outside.parse_chat message) g) follows
                        (handle_chat-Kept h (outside.parse_chat message) g))
                    (λ e. p))))

  pub handle_packet-Placed :
      (h : ℕ) (buffer : List ℕ) (len : ℕ) (g : Game)
      → Placed g
      → IfOk (λ r. Placed r.1) (handle_packet outside h buffer len g)
  unfolding handle_packet
  handle_packet-Placed h buffer len g p =
      IfOk-bind_any (λ r. Placed r.1) (read_header buffer 0) _
        (λ header.
          if_lem (IfOk (λ r. Placed r.1)) (has_handler header.id && ltb len header.size) _ _
            (λ e. p)
            (λ e.
              if_lem (IfOk (λ r. Placed r.1)) (has_handler header.id && ltb len header_size) _ _
                (λ e. tt) (λ e. handle_message-Placed header.id h _ g p)))
