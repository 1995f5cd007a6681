-- ===== src/Game/Packets.antt =====
-- The packets from clients: PacketHandler (RIOIOCPServer/Session/PacketHandler.h), and what a session
-- does when it ends (RioServerSession.cpp, with `Disconnect` of ServerCore/Network/RioSession.cpp).
pub mod Endings
use rio_iocp_server.Prelude.{
  ℕ, ◌+◌, ◌-◌, ◌*◌, Bool, true, false, Option, none, some, List, [], ◌∷◌, ◌++◌, if◌then◌else◌, not,
  ◌&&◌, ◌||◌, ltb, ◌==◌, ℤ, pos, negsuc, ◌-ℤ◌, wrap_int, Outcome, ok, ub, ◌>>=◌, deref, length,
}
use rio_iocp_server.Memory.{slice}
use rio_iocp_server.Packet.{header_size, read_header}
use rio_iocp_server.Game.Defs.{
  Game, Player, PosInfo, Job, logout_job, move_job, chat_job, disconnected, at, set_player,
  set_session, is_valid_player,
}
use rio_iocp_server.Game.Room.{login, logout, move_player, chat}
use rio_iocp_server.Game.Zone.{zone_move_player, zone_chat}

-- The messages from clients, with the members that the server reads (Protocol.pb.h).
pub record LoginPacket : Type 0 where
  pub player_str_id : List ℕ
  pub login_time : ℤ
  pub player_type : ℤ

pub record MovePacket : Type 0 where
  pub session_id : ℤ
  pub pos_info : PosInfo
  pub request_result : Bool
  pub time_stamp : ℤ

pub record ChatPacket : Type 0 where
  pub session_id : ℤ
  pub message : List ℕ

-- What is outside: `ParseFromArray`, whose result the handlers do not look at; the clock, in
-- microseconds; the random position of `SetInitialPos`; and the answer of `SetLinger`.
pub record Outside : Type 0 where
  pub parse_login : List ℕ → LoginPacket
  pub parse_move : List ℕ → MovePacket
  pub parse_chat : List ℕ → ChatPacket
  pub clock : Game → ℤ
  pub initial_y : Game → ℤ
  pub initial_x : Game → ℤ
  pub set_linger : Game → Bool

-- The ids of packets that the `switch` has a handler for.
abbrev pub has_handler : ℕ → Bool
has_handler proto_id = (proto_id == 0) || (proto_id == 9) || (proto_id == 4) || (proto_id == 11)

-- An id in a packet is that of the session.
abbrev pub is_id : ℤ → ℕ → Bool
is_id (pos n) id = n == id
is_id (negsuc n) id = false

-- `OnDisconnected` of the server session, up to the reset of its player.
unfoldable pub leave_room : Option ℕ → Game → Game
leave_room none g = g
leave_room (some id) g =
    let player = g.players id in
    if is_valid_player player
    then record g {
      players = at id (record player { state = disconnected }) g.players;
      room_jobs = g.room_jobs ++ logout_job (some id) ∷ [];
    }
    else g

-- `OnDisconnected`
unfoldable pub on_disconnected : ℕ → Game → Game
on_disconnected h g =
    let left = leave_room (g.sessions h).own_player g in
    set_session h (record (left.sessions h) { own_player = none }) left

-- The destructor of the server session.
unfoldable pub destroy : ℕ → Game → Game
destroy h g = leave_room (g.sessions h).own_player g

module _ (outside : Outside) where
  -- `Disconnect`
  unfoldable pub disconnect : ℕ → Game → Game
  disconnect h g =
      let down = set_session h (record (g.sessions h) { is_connected = false }) g in
      if not (g.sessions h).is_connected
      then g
      else (if outside.set_linger down then on_disconnected h down else down)

  -- `make_shared<Player>` in `Handle_LOGIN`, with the two members that it sets.
  unfoldable pub new_player : ℕ → LoginPacket → Game → Player
  new_player h pkt g = record {
    info = record {
      player_str_id = pkt.player_str_id;
      player_type = pkt.player_type;
      pos_info = record {
        x = outside.initial_x g;
        y = outside.initial_y g;
        z = pos (200 * 65536);
        yaw = pos 0;
        pitch = pos 0;
        roll = pos 0;
        vx = pos 0;
        vy = pos 0;
        vz = pos 0;
        ax = pos 0;
        ay = pos 0;
        az = pos 0;
      };
      time_stamp = pos 0;
    };
    state = disconnected;
    sector = (0, 0);
    owner_session = h;
    view_list = [];
  }

  -- `Handle_LOGIN` up to the call of `Login`.
  unfoldable pub add_player : ℕ → LoginPacket → Game → Game
  add_player h pkt g =
      let id : ℕ = g.session_cnt + 1 in
      let session = record (g.sessions h) {
        player_str_id = pkt.player_str_id;
        session_id = id;
        login_time = wrap_int pkt.login_time;
        own_player = some id;
      } in
      record g {
        session_cnt = id;
        sessions = at h session g.sessions;
        players = at id (new_player h pkt g) g.players;
      }

  -- `Handle_LOGIN` when the packet is parsed.
  unfoldable pub handle_login : ℕ → LoginPacket → Game → Outcome (Bool × Game)
  handle_login h pkt g = login (g.session_cnt + 1) (add_player h pkt g) >>= λ g'. ok (true, g')

  -- `Handle_C2S_MOVE` when the packet is parsed.
  unfoldable pub handle_move : ℕ → MovePacket → Game → Outcome (Bool × Game)
  handle_move h pkt g =
      let session = g.sessions h in
      let move_time : ℤ = wrap_int pkt.time_stamp in
      let moved = λ (id : ℕ).
        let player = g.players id in
        let info = record (player.info) { pos_info = pkt.pos_info; time_stamp = pkt.time_stamp } in
        let placed = set_player id (record player { info = info }) g in
        move_player id (
          set_session h
            (record session {
              request_result = pkt.request_result;
              move_time = move_time;
              send_time = wrap_int (outside.clock placed -ℤ move_time);
            })
            placed) in
      if not (is_id pkt.session_id session.session_id)
      then ok (false, g)
      else (deref session.own_player >>= λ id. ok (true, moved id))

  -- `Handle_LOGOUT`
  unfoldable pub handle_logout : ℕ → Game → Outcome (Bool × Game)
  handle_logout h g =
      let job = logout_job (g.sessions h).own_player in
      ok (true, disconnect h (record g { room_jobs = g.room_jobs ++ job ∷ [] }))

  -- `Handle_CHAT` when the packet is parsed.
  unfoldable pub handle_chat : ℕ → ChatPacket → Game → Outcome (Bool × Game)
  handle_chat h pkt g =
      if not (is_id pkt.session_id (g.sessions h).session_id)
      then ok (false, g)
      else (deref (g.sessions h).own_player >>= λ id. ok (true, chat id pkt.message g))

  -- The `switch` of `HandlePacket`; `message` is the packet behind its header.
  unfoldable pub handle_message : ℕ → ℕ → List ℕ → Game → Outcome (Bool × Game)
  handle_message proto_id h message g =
      if proto_id == 0
      then handle_login h (outside.parse_login message) g
      else (if proto_id == 9
          then handle_logout h g
          else (if proto_id == 4
              then handle_move h (outside.parse_move message) g
              else (if proto_id == 11
                  then handle_chat h (outside.parse_chat message) g
                  else ok (false, g))))

  -- `HandlePacket`, with what all handlers do first. `len - sizeof(PacketHeader)` must not be negative.
  unfoldable pub handle_packet : ℕ → List ℕ → ℕ → Game → Outcome (Bool × Game)
  handle_packet h buffer len g = read_header buffer 0 >>= λ header.
      if has_handler header.id && ltb len header.size
      then ok (false, g)
      else (if has_handler header.id && ltb len header_size
          then ub
          else handle_message header.id h (slice buffer header_size (len - header_size)) g)

  -- `OnRecvPacket` of the server session, with the bytes of a packet.
  unfoldable pub on_recv_packet : ℕ → List ℕ → Game → Outcome Game
  on_recv_packet h packet g = handle_packet h packet (length packet) g >>= λ (handled, g'). ok g'

  -- `Execute` of a job.
  unfoldable pub execute_job : Job → Game → Outcome Game
  execute_job (logout_job player) g = deref player >>= λ id. ok (logout id g)
  execute_job (move_job id) g = zone_move_player outside.clock id g
  execute_job (chat_job id message) g = ok (zone_chat id message g)
