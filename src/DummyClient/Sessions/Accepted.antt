-- ===== src/DummyClient/Sessions/Accepted.antt =====
-- A client of the stress test and the server together: the login, its result, and the first move.
use rio_iocp_server.Prelude.{
  ℕ, ◌+◌, ◌^◌, ◌<◌, ◌≡◌, refl, sym, ap, subst, ◌∙◌, true, not, List, [], ◌∷◌, ◌++◌, some, deref,
  if◌then◌else◌, if_true, if_false, ℤ, pos, wrap_int, ok, ◌>>=◌, bind_ok, length, arith, at_self,
}
use rio_iocp_server.Packet.{header_size}
use rio_iocp_server.NetBuffer.RoundTrip.{packet_bytes}
use rio_iocp_server.Game.Defs.{
  Game, PosInfo, ServerSession, PlayerInfo, Message, Player, s2c_login_result,
}
use rio_iocp_server.Game.Messages.{own_info, send_login_result_msg}
use rio_iocp_server.Game.Messages.{send as server_send}
use rio_iocp_server.Game.Room.{login, enter_room}
use rio_iocp_server.Game.Packets.{
  LoginPacket, MovePacket, is_id, new_player, add_player, handle_login, handle_move,
}
use rio_iocp_server.Game.Packets.{Outside as ServerOutside}
use rio_iocp_server.DummyClient.Moves.{update}
use rio_iocp_server.DummyClient.Sessions.{
  Client, ClientSession, Outside, c2s_move, on_recv_packet, send, send_move,
}
use rio_iocp_server.DummyClient.Sessions.Manager.{send_to_session}
use rio_iocp_server.DummyClient.Sessions.Handled.{IsRead, on_recv_packet-message}

-- The login result that the server sends.
abbrev pub login_answer : ServerOutside → ℕ → LoginPacket → Game → Message
login_answer server h pkt g =
    s2c_login_result (g.session_cnt + 1) true (wrap_int pkt.login_time) pkt.player_type
      pkt.player_str_id (new_player server h pkt g).info.pos_info

-- The game after it.
abbrev logged_in : ServerOutside → ℕ → LoginPacket → Game → Game
logged_in server h pkt g =
    let room = enter_room (g.session_cnt + 1) (add_player server h pkt g) in
    record room { outbox = g.outbox ++ (h, login_answer server h pkt g) ∷ [] }

-- A login result for a session that has a player and is connected.
send_lem :
    (h id : ℕ) (type : ℤ) (s : ServerSession) (info : PlayerInfo) (r : Game)
    → r.sessions h ≡ s
    → s.own_player ≡ some id
    → s.is_connected ≡ true
    → (r.players id).info ≡ info
    → send_login_result_msg h true type r
      ≡ ok (record r {
        outbox =
            r.outbox
            ++ (
              h,
              s2c_login_result s.session_id true s.login_time type s.player_str_id info.pos_info,
            )
              ∷ [];
      })
unfolding send_login_result_msg own_info server_send
send_lem h id type s info r there own up named =
    let sent : ServerSession → PlayerInfo → ℕ × Message =
      λ t i. (h, s2c_login_result t.session_id true t.login_time type t.player_str_id i.pos_info) in
    let result = λ (t : ServerSession).
      ((deref t.own_player >>= λ i. ok ((r.players i).info)) >>= λ i.
      ok (if t.is_connected then record r { outbox = r.outbox ++ sent t i ∷ [] } else r)) in
    subst (λ t. result t ≡ ok (record r { outbox = r.outbox ++ sent s info ∷ [] })) (sym there)
      (ap
          (λ o. (deref o >>= λ i. ok ((r.players i).info)) >>= λ i.
            ok (if s.is_connected then record r { outbox = r.outbox ++ sent s i ∷ [] } else r))
          own
        ∙ ap
            (λ (i : PlayerInfo).
              ok (if s.is_connected then record r { outbox = r.outbox ++ sent s i ∷ [] } else r))
            named
        ∙ ap ok (if_true _ _ _ up))

handle_login_lem :
    (server : ServerOutside) (h : ℕ) (pkt : LoginPacket) (g : Game)
    → (g.sessions h).is_connected ≡ true
    → handle_login server h pkt g ≡ ok (true, logged_in server h pkt g)
unfolding handle_login login enter_room add_player new_player
handle_login_lem server h pkt g up =
    let id : ℕ = g.session_cnt + 1 in
    let joined = add_player server h pkt g in
    let room = enter_room id joined in
    let made : joined.players id ≡ new_player server h pkt g = at_self id _ g.players in
    bind_ok (logged_in server h pkt g) (λ r. ok (true, r))
      (ap (λ (p : Player). send_login_result_msg p.owner_session true p.info.player_type room) made
        ∙ send_lem h id pkt.player_type _ (new_player server h pkt g).info room
            (at_self h _ g.sessions) refl up
            (ap (λ (p : Player). p.info) (at_self id _ joined.players)
              ∙ ap (λ (p : Player). p.info) made))

-- A move under the id of a session that has a player.
handle_move_lem :
    (server : ServerOutside) (h id : ℕ) (pkt : MovePacket) (g : Game)
    → is_id pkt.session_id (g.sessions h).session_id ≡ true
    → (g.sessions h).own_player ≡ some id
    → (g' : Game) × (handle_move server h pkt g ≡ ok (true, g'))
unfolding handle_move
handle_move_lem server h id pkt g named own =
    (_, if_false _ _ _ (ap not named) ∙ bind_ok id _ (ap deref own))

-- What a session of the stress test sends next when it has logged in.
moves_lem :
    (outside : Outside) (k : ℕ) (c : Client)
    → (c.sessions k).login ≡ true
    → (c.sessions k).is_connected ≡ true
    → (p : PosInfo) × (t : ℤ) × ((send_to_session outside k c).outbox
        ≡ c.outbox ++ (k, c2s_move (c.sessions k).session_id true p t) ∷ [])
unfolding send_to_session send_move send
moves_lem outside k c login up = (
  update outside.sqrtf (outside.draws c) 1 (c.sessions k).pos_info,
  outside.clock 0 c,
  ap (λ (d : Client). d.outbox) (if_true _ _ _ login)
      ∙ ap (λ (d : Client). d.outbox)
          (if_true _ _ _
            (ap (λ (s : ClientSession). s.is_connected) (at_self k _ c.sessions) ∙ up)),
)

-- A client logs in and moves: the server takes the login of a connected session, and the one message it
-- sends is a login result; at a connected session of the stress test, which reads the result as it was
-- written, `OnRecvPacket` returns, and what the manager sends next for the session is a move under the
-- id that the server gave; the server, as the login left it, takes that move as one of the session.
pub login-move :
    (server : ServerOutside) (outside : Outside) (serialize : Message → List ℕ) (h k : ℕ)
    (pkt : LoginPacket) (g : Game) (c : Client)
    → (g.sessions h).is_connected ≡ true
    → (c.sessions k).is_connected ≡ true
    → length (serialize (login_answer server h pkt g)) + header_size < 2 ^ 16
    → IsRead outside (serialize (login_answer server h pkt g)) (login_answer server h pkt g)
    → (g1 : Game) × (c1 : Client) × (p : PosInfo) × (t : ℤ) × (g2 : Game) × (handle_login server h
          pkt g
        ≡ ok (true, g1))
      × (g1.outbox ≡ g.outbox ++ (h, login_answer server h pkt g) ∷ [])
      × (on_recv_packet outside k (packet_bytes (serialize (login_answer server h pkt g)) 2) c
          ≡ ok c1)
      × ((send_to_session outside k c1).outbox
          ≡ c1.outbox ++ (k, c2s_move (pos (g.session_cnt + 1)) true p t) ∷ [])
      × (handle_move server h
            (record {
              session_id = pos (g.session_cnt + 1);
              pos_info = p;
              request_result = true;
              time_stamp = t;
            })
            g1
          ≡ ok (true, g2))
unfolding enter_room add_player
login-move server outside serialize h k pkt g c up client_up small read =
    let (c1, e, answered) =
      on_recv_packet-message outside serialize k (login_answer server h pkt g) c small read in
    let (named, connected, login, placed) = answered in
    let (p, t, sent) = moves_lem outside k c1 login (connected ∙ client_up) in
    let there = at_self h _ g.sessions in
    let (g2, moved) =
      handle_move_lem server h (g.session_cnt + 1)
        (record {
          session_id = pos (g.session_cnt + 1);
          pos_info = p;
          request_result = true;
          time_stamp = t;
        })
        (logged_in server h pkt g)
        (ap (λ (s : ServerSession). is_id (pos (g.session_cnt + 1)) s.session_id) there
          ∙ ground arith)
        (ap (λ (s : ServerSession). s.own_player) there) in
    (
      logged_in server h pkt g,
      c1,
      p,
      t,
      g2,
      handle_login_lem server h pkt g up,
      refl,
      e,
      sent ∙ ap (λ i. c1.outbox ++ (k, c2s_move i true p t) ∷ []) named,
      moved,
    )
