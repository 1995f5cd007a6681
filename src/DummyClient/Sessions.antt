-- ===== src/DummyClient/Sessions.antt =====
-- The sessions of the stress test: `ClientSession` (DummyClient/Session/ClientSession.h, ClientSession.cpp),
-- `PacketHandler` (PacketHandler.cpp) and `TestSessionManager` (DummyClient/StressTest).
-- A session is a number, that of an object in a store. What `ClientSession` inherits of `IocpSession`
-- is here its flag `m_bConnected` and the packets that it was given to send.
pub mod Manager
pub mod Orderly
pub mod Keeps
pub mod Steps
pub mod Handled
pub mod Accepted
use rio_iocp_server.Prelude.{
  ℕ, ◌+◌, ◌-◌, Bool, true, false, Option, none, some, List, [], ◌∷◌, ◌++◌, if◌then◌else◌, not, ◌&&◌,
  ◌||◌, ltb, ◌==◌, ℤ, pos, ◌+ℤ◌, ◌-ℤ◌, distance, wrap_int, Outcome, ok, ub, ◌>>=◌, length, at,
}
use rio_iocp_server.Memory.{slice}
use rio_iocp_server.Packet.{PacketHeader, header_size, read_header}
use rio_iocp_server.Game.Defs.{PosInfo}
use rio_iocp_server.DummyClient.Moves.{update}

-- The messages from the server, with the members that the client reads (Protocol.pb.h).
pub record LoginResult : Type 0 where
  pub session_id : ℤ
  pub result : Bool
  pub pos_info : PosInfo
  pub login_time : ℤ

pub record MoveResult : Type 0 where
  pub session_id : ℤ
  pub time_stamp : ℤ
  pub process_time : ℤ
  pub send_time : ℤ
  pub recv_time : ℤ

-- The messages to the server. The name of a player is "test" and a number, and its password is fixed.
pub data Request : Type 0 where
  c2s_login : ℕ → ℤ → ℤ → Request
  c2s_move : ℤ → Bool → PosInfo → ℤ → Request

pub record ClientSession : Type 0 where
  pub session_id : ℤ
  pub pos_info : PosInfo
  pub login : Bool
  pub start_login : Bool
  pub connect : Bool
  pub is_connected : Bool

-- The members of `DelayManager` that keep an average.
pub data Checker : Type 0 where
  avg_process_delay avg_login_delay avg_receiving_delay avg_sending_delay avg_send_recv_delay :
      Checker

-- `made` objects were made, and `alive` tells those that a `weak_ptr` can still lock. `table` is the map
-- of the manager, from ids to objects. `delays` are the calls of `UpdateAvgDelay`, and `outbox` has the
-- messages given to `Send` of connected sessions, both in order.
pub record Client : Type 0 where
  pub session_cnt : ℕ
  pub login_num : ℕ
  pub table : List (ℕ × ℕ)
  pub size : ℤ
  pub connect_cnt : ℤ
  pub made : ℕ
  pub alive : ℕ → Bool
  pub sessions : ℕ → ClientSession
  pub send_cnt : ℕ
  pub recv_cnt : ℕ
  pub delays : List (Checker × ℤ)
  pub outbox : List (ℕ × Request)

-- What is outside: `ParseFromArray`, whose result the handlers do not look at; the `n`-th reading of the
-- clock in a call, in microseconds; the draws of the random numbers; and `sqrtf`.
pub record Outside : Type 0 where
  pub parse_login_result : List ℕ → LoginResult
  pub parse_move_result : List ℕ → MoveResult
  pub clock : ℕ → Client → ℤ
  pub player_type : Client → ℤ
  pub draws : Client → ℤ × ℤ
  pub sqrtf : ℕ → ℕ

abbrev pub set_session : ℕ → ClientSession → Client → Client
set_session h s c = record c { sessions = at h s c.sessions }

-- `Send`
unfoldable pub send : ℕ → Request → Client → Client
send h r c =
    if (c.sessions h).is_connected then record c { outbox = c.outbox ++ (h, r) ∷ [] } else c

-- `Disconnect` of `IocpSession`, up to the request to the system.
unfoldable pub close : ℕ → Client → Client
close h c = set_session h (record (c.sessions h) { is_connected = false }) c

-- A key of the map.
unfoldable pub find : ℕ → List (ℕ × ℕ) → Option ℕ
find id [] = none
find id ((key, h) ∷ rest) = if id == key then some h else find id rest

abbrev pub erase_key : ℕ → List (ℕ × ℕ) → List (ℕ × ℕ)
erase_key id [] = []
erase_key id ((key, h) ∷ rest) =
    let others = erase_key id rest in if id == key then others else (key, h) ∷ others

abbrev pub insert_key : ℕ → ℕ → List (ℕ × ℕ) → List (ℕ × ℕ)
insert_key id h table = elim (find id table) [ none ↦ (id, h) ∷ table | some _ ↦ table ]

-- `AddSession`
unfoldable pub add_session : ℕ → ℕ → Client → Client
add_session id h c = record c {
  table = insert_key id h c.table;
  size = c.size +ℤ pos 1;
  connect_cnt = c.connect_cnt +ℤ pos 1;
}

-- `DeleteSession`
unfoldable pub delete_session : ℕ → Client → Client
delete_session id c = record c { table = erase_key id c.table; size = c.size -ℤ pos 1 }

-- `OnConnected`
unfoldable pub on_connected : ℕ → Client → Client
on_connected h c =
    let id : ℕ = c.session_cnt + 1 in
    let session = record (c.sessions h) { session_id = pos id; connect = true } in
    add_session id h (set_session h session (record c { session_cnt = id }))

abbrev pub eq_ℤ : ℤ → ℤ → Bool
eq_ℤ a b = distance a b == 0

abbrev pub note_delay : Checker → ℤ → Client → Client
note_delay checker delay c = record c { delays = c.delays ++ (checker, delay) ∷ [] }

abbrev pub count_recv : Client → Client
count_recv c = record c { recv_cnt = c.recv_cnt + 1 }

-- The ids of packets that the client does nothing with.
abbrev pub is_ignored : ℕ → Bool
is_ignored id = (id == 6) || (id == 7) || (id == 8) || (id == 12)

module _ (outside : Outside) where
  -- `SendLogin` of the session.
  unfoldable pub send_login : ℕ → Client → Client
  send_login h c =
      let started = set_session h (record (c.sessions h) { start_login = true }) c in
      let time = wrap_int (outside.clock 0 c) in
      send h (c2s_login c.login_num (outside.player_type c) time)
        (record started { login_num = c.login_num + 1 })

  -- `SendMove` of the session.
  unfoldable pub send_move : ℕ → Client → Client
  send_move h c =
      let session = c.sessions h in
      let moved = update outside.sqrtf (outside.draws c) 1 session.pos_info in
      send h (c2s_move session.session_id true moved (outside.clock 0 c))
        (set_session h (record session { pos_info = moved }) c)

  -- `Handle_LOGIN_RESULT` when the packet is parsed.
  unfoldable pub login_result : ℕ → LoginResult → Client → Bool × Client
  login_result h pkt c =
      let named = record (c.sessions h) { session_id = pkt.session_id } in
      let logged = set_session h (record named { login = true; pos_info = pkt.pos_info }) c in
      let delay = wrap_int (outside.clock 0 c -ℤ pkt.login_time) in
      if not pkt.result
      then (false, set_session h named c)
      else (true, count_recv (note_delay avg_login_delay delay logged))

  -- `Handle_SC2_MOVE_RESULT` when the packet is parsed.
  unfoldable pub move_result : ℕ → MoveResult → Client → Bool × Client
  move_result h pkt c =
      let move_start_time = wrap_int pkt.time_stamp in
      let recv_start_time = wrap_int pkt.recv_time in
      let move_time = wrap_int (outside.clock 0 c -ℤ move_start_time) in
      let recv_time = wrap_int (outside.clock 1 c -ℤ recv_start_time) in
      if not (eq_ℤ pkt.session_id (c.sessions h).session_id) then (false, c) else (
        true,
        count_recv (
            note_delay avg_receiving_delay recv_time (
              note_delay avg_sending_delay (wrap_int pkt.send_time) (
                note_delay avg_send_recv_delay move_time
                  (note_delay avg_process_delay (wrap_int pkt.process_time) c)))),
      )

  -- What both handlers do first: `len` must hold the packet, and `len - sizeof(PacketHeader)` must not
  -- be negative. `message` is the packet behind its header.
  abbrev pub sized :
      PacketHeader → List ℕ → ℕ → Client → (List ℕ → Bool × Client) → Outcome (Bool × Client)
  sized header buffer len c handle =
      if ltb len header.size
      then ok (false, c)
      else (if ltb len header_size
          then ub
          else ok (handle (slice buffer header_size (len - header_size))))

  -- `HandlePacket`
  unfoldable pub handle_packet : ℕ → List ℕ → ℕ → Client → Outcome (Bool × Client)
  handle_packet h buffer len c = read_header buffer 0 >>= λ header.
      if header.id == 5
      then sized header buffer len c (λ m. move_result h (outside.parse_move_result m) c)
      else (if is_ignored header.id
          then ok (true, c)
          else (if header.id == 2
              then sized header buffer len c (λ m. login_result h (outside.parse_login_result m) c)
              else ok (false, c)))

  -- `OnRecvPacket`, with the bytes of a packet.
  unfoldable pub on_recv_packet : ℕ → List ℕ → Client → Outcome Client
  on_recv_packet h packet c = handle_packet h packet (length packet) c >>= λ (handled, c').
      ok (if handled then c' else close h c')
