-- ===== src/DummyClient/Tests.antt =====
-- The client of the stress test on concrete values: one session that connects, logs in and moves, and
-- five clients that two threads share.
use rio_iocp_server.Prelude.{
  ℕ, ◌+◌, ◌*◌, ◌≡◌, refl, sym, blit, Bool, true, false, none, List, [], ◌∷◌, ◌++◌, map,
  if◌then◌else◌, ◌==◌, ◌-ℤ◌, ℤ, pos, negsuc, arith, Outcome, ok, ub, running, wrap_int,
}
use rio_iocp_server.Packet.{read_header}
use rio_iocp_server.NetBuffer.RoundTrip.{packet_bytes}
use rio_iocp_server.Game.Defs.{
  Game, PosInfo, ServerSession, disconnected, Message, s2c_login_result,
}
use rio_iocp_server.Game.Packets.{LoginPacket, new_player, handle_login, handle_move}
use rio_iocp_server.Game.Packets.{Outside as ServerOutside}
use rio_iocp_server.DummyClient.Moves.Bounds.{IsInside, updates, updates-IsInside}
use rio_iocp_server.DummyClient.Sessions.{
  Client, ClientSession, Outside, Request, c2s_login, c2s_move, login_result, on_connected,
  add_session, find, send, send_login, send_move, handle_packet, on_recv_packet,
}
use rio_iocp_server.DummyClient.Sessions.Manager.{manager_send_packet, send_to_session, connect_new}
use rio_iocp_server.DummyClient.Sessions.Orderly.{Orderly, requests}
use rio_iocp_server.DummyClient.Sessions.Steps.{
  begins, goes_on, connects, receives, sends_packet, new_process, Reaches-Orderly,
}
use rio_iocp_server.DummyClient.Sessions.Handled.{IsAnswered, on_recv_packet-message}
use rio_iocp_server.DummyClient.Sessions.Accepted.{login_answer, login-move}
use rio_iocp_server.DummyClient.Senders.{
  StressTestClient, Call, send_packet, visit, visit_all, new_client, send_to_server, job_count,
}
use rio_iocp_server.DummyClient.Senders.Turns.{Turn, send_to_server_lem}

-- A position, with a velocity along x of at most 1.
abbrev at_pos : ℕ → ℕ → PosInfo
at_pos y x = record {
  x = pos (x * 65536);
  y = pos (y * 65536);
  z = pos 0;
  yaw = pos 0;
  pitch = pos 0;
  roll = pos 0;
  vx = pos 0;
  vy = pos 0;
  vz = pos 0;
  ax = pos 0;
  ay = pos 0;
  az = pos 0;
}

-- 92681 is the root of 2, in 65536ths.
abbrev root : ℕ → ℕ
root n = if n == 131072 then 92681 else n

updates-IsInside_example :
    IsInside (updates root ((pos 1, pos 1) ∷ (negsuc 0, pos 0) ∷ []) (at_pos 19890 (19890 + 10)))
updates-IsInside_example =
    updates-IsInside root ((pos 1, pos 1) ∷ (negsuc 0, pos 0) ∷ []) (at_pos 19890 19900)
      (λ n h. ground (arith, h)) (omega arith) (omega arith)

abbrev outside : Outside
outside = record {
  parse_login_result = λ bytes. record {
    session_id = pos 1;
    result = true;
    pos_info = at_pos 600 500;
    login_time = pos 7;
  };
  parse_move_result = λ bytes. record {
    session_id = pos 1;
    time_stamp = pos 1;
    process_time = pos 2;
    send_time = pos 3;
    recv_time = pos 4;
  };
  clock = λ n c. pos (100 + n);
  player_type = λ c. pos 3;
  draws = λ c. (pos 1, negsuc 0);
  sqrtf = root;
}

abbrev any_session : ClientSession
any_session = record {
  session_id = pos 0;
  pos_info = at_pos 0 0;
  login = false;
  start_login = false;
  connect = false;
  is_connected = false;
}

abbrev any_sessions : ℕ → ClientSession
any_sessions h = any_session

abbrev result : Client → Outcome (Bool × Client) → Client
result c (ok (handled, c')) = c'
result c ub = c
result c running = c

abbrev result_bytes : List ℕ
result_bytes = 4 ∷ 0 ∷ 2 ∷ 0 ∷ []

abbrev started : Client
started =
    (manager_send_packet outside 1 (connect_new outside (at_pos 0 0) (new_process any_sessions))).1

abbrev logged : Client
logged = result started (handle_packet outside 0 result_bytes 4 started)

abbrev moved : Client
moved = (manager_send_packet outside 1 logged).1

logged_handled : handle_packet outside 0 result_bytes 4 started ≡ ok (true, logged)
unfolding handle_packet read_header login_result manager_send_packet connect_new on_connected
    add_session new_process send_to_session send_login send find
logged_handled = refl

abbrev kind : Request → ℕ
kind (c2s_login _ _ _) = 0
kind (c2s_move _ _ _ _) = 1

-- One login went out, and one move under the id that the result has.
moved_requests : map kind (requests 0 moved.outbox) ≡ 0 ∷ 1 ∷ []
unfolding handle_packet read_header login_result manager_send_packet connect_new on_connected
    add_session new_process send_to_session send_login send find send_move
moved_requests = refl

Reaches-Orderly_example :
    Orderly (moved.sessions 0).start_login (moved.sessions 0).login (requests 0 moved.outbox)
Reaches-Orderly_example =
    Reaches-Orderly outside any_sessions moved
      (goes_on
        (goes_on (goes_on (goes_on begins (connects (at_pos 0 0))) (sends_packet 1))
          (receives 0 result_bytes 4 true logged_handled))
        (sends_packet 1))
      0

abbrev result_message : Message
result_message = s2c_login_result 1 true (pos 7) (pos 3) (65 ∷ []) (at_pos 600 500)

on_recv_packet-message_example :
    (c' : Client) × (on_recv_packet outside 0 (packet_bytes (8 ∷ 9 ∷ []) 2) started ≡ ok c')
    × IsAnswered (started.sessions 0) (c'.sessions 0) result_message
on_recv_packet-message_example =
    on_recv_packet-message outside (λ m. 8 ∷ 9 ∷ []) 0 result_message started (omega arith) refl

-- A server with one connected session.
abbrev server : ServerOutside
server = record {
  parse_login =
      λ bytes. record { player_str_id = 65 ∷ []; login_time = pos 7; player_type = pos 3 };
  parse_move = λ bytes. record {
    session_id = pos 1;
    pos_info = at_pos 800 700;
    request_result = true;
    time_stamp = pos 9;
  };
  parse_chat = λ bytes. record { session_id = pos 1; message = [] };
  clock = λ g. pos 100;
  initial_y = λ g. pos (600 * 65536);
  initial_x = λ g. pos (500 * 65536);
  set_linger = λ g. true;
}

abbrev server_session : ServerSession
server_session = record {
  is_connected = true;
  player_str_id = [];
  session_id = 0;
  move_time = pos 0;
  login_time = pos 0;
  server_process_time = pos 0;
  send_time = pos 0;
  request_result = false;
  own_player = none;
}

abbrev game : Game
game = record {
  session_cnt = 0;
  login_cnt = pos 0;
  members = [];
  sectors = λ y x. [];
  players = λ id. record {
    info = record {
      player_str_id = [];
      player_type = pos 0;
      pos_info = at_pos 0 0;
      time_stamp = pos 0;
    };
    state = disconnected;
    sector = (0, 0);
    owner_session = 0;
    view_list = [];
  };
  sessions = λ h. server_session;
  room_jobs = [];
  zone_jobs = λ y x. [];
  outbox = [];
}

abbrev login_packet : LoginPacket
login_packet = record { player_str_id = 65 ∷ []; login_time = pos 7; player_type = pos 3 }

-- The client reads what the server wrote.
abbrev reads_well : Outside
reads_well = record outside {
  parse_login_result = λ bytes. record {
    session_id = pos 1;
    result = true;
    pos_info = (new_player server 20 login_packet game).info.pos_info;
    login_time = wrap_int (pos 7);
  };
}

login-move_example :
    (g1 : Game) × (c1 : Client) × (p : PosInfo) × (t : ℤ) × (g2 : Game) × (handle_login server 20
        login_packet game
      ≡ ok (true, g1))
    × (g1.outbox ≡ (20, login_answer server 20 login_packet game) ∷ [])
    × (on_recv_packet reads_well 0 (packet_bytes (8 ∷ 9 ∷ []) 2) started ≡ ok c1)
    × ((send_to_session reads_well 0 c1).outbox ≡ c1.outbox ++ (0, c2s_move (pos 1) true p t) ∷ [])
    × (handle_move server 20
          (record { session_id = pos 1; pos_info = p; request_result = true; time_stamp = t })
          g1
        ≡ ok (true, g2))
unfolding manager_send_packet connect_new on_connected add_session new_process send_to_session
    send_login send find
login-move_example =
    login-move server reads_well (λ m. 8 ∷ 9 ∷ []) 20 0 login_packet game started refl refl
      (omega arith) refl

-- Five clients, two threads, and a clock that goes on by 600 milliseconds at each reading.
abbrev clock : ℕ → ℤ
clock k = pos (5000 + 600 * k)

abbrev running_test : StressTestClient
running_test = record (new_client 5 2) {
  run_client = true;
  job_cnt = 3;
  send_time = pos 4000 ∷ pos 4000 ∷ pos 4900 ∷ pos 6000 ∷ pos 4000 ∷ [];
}

job_count_5 : job_count 5 2 ≡ 3
unfolding job_count
job_count_5 = refl

send_to_server_lem_example :
    (s' : StressTestClient) × (ids : List ℕ) × (send_to_server clock 1 running_test ≡ ok (true, s'))
    × Turn clock 1 running_test s' ids
send_to_server_lem_example =
    send_to_server_lem clock 1 running_test refl (omega arith) (sym job_count_5) refl

abbrev calls_of : Outcome (Bool × StressTestClient) → List Call
calls_of (ok (more, s)) = s.calls
calls_of ub = []
calls_of running = []

-- The turn of the second thread calls the second client and skips the fourth.
turn_calls : calls_of (send_to_server clock 1 running_test) ≡ send_packet 2 ∷ []
unfolding send_to_server visit_all visit ◌-ℤ◌ blit
turn_calls = refl
