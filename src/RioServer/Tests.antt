-- ===== src/RioServer/Tests.antt =====
-- A RioServer (ServerCore/Network/RioServer.cpp) with two cores that accepts two sessions.
use rio_iocp_server.Prelude.{
  ◌+◌, ◌≤◌, ◌<◌, ◌≡◌, refl, Bool, true, false, [], ◌∷◌, pos, some, Outcome, ok, ub, running, arith,
  has, insert,
}
use rio_iocp_server.RioBuffer.{RioBuffer}
use rio_iocp_server.RioSession.Defs.{RioSession, World, queued}
use rio_iocp_server.RioSession.Connection.{
  process_connect, register_recv, init_session, alloc_buffer, create_queue,
}
use rio_iocp_server.RioCore.{add_session, returned, releases}
use rio_iocp_server.RioServer.{RioServer, accept}
use rio_iocp_server.RioServer.Turns.{nobody, one_more, session_num, accept-in_turn}

abbrev plain : World
plain = record {
  set_linger = λ s. true;
  rio_receive = λ s offset len. true;
  rio_send = λ s len offset. queued;
  rio_commit = λ s. true;
  register_buffer = λ i. true;
  create_request_queue = true;
  on_call = λ c s. s;
  now = λ s. 1000;
}

abbrev empty_buffer : RioBuffer
empty_buffer = record {
  ring = record { capacity = 4; size = 0; buffer = 0 ∷ 0 ∷ 0 ∷ 0 ∷ []; head_pos = 0; tail_pos = 0 };
  send_pos = 0;
}

abbrev new_session : RioSession
new_session = record {
  is_connected = false;
  is_allocated = false;
  recv_buffer = empty_buffer;
  send_buffer = empty_buffer;
  send_queue = [];
  send_cnt = 0;
  last_send_time = 0;
  log = [];
}

abbrev two_cores : RioServer
two_cores = record {
  cores = λ i. record {
    session_lock = false;
    sessions = [];
    session_cnt = pos 0;
    objects = λ h. new_session;
  };
  core_cnt = 2;
  curr_alloc_core_num = 0;
  session_cnt = pos 0;
}

abbrev server_of : Outcome (Bool × RioServer) → RioServer
server_of (ok (b, s)) = s
server_of ub = two_cores
server_of running = two_cores

abbrev first : RioServer
first = server_of (accept (λ h. plain) 7 (some new_session) two_cores)

first_accepted : accept (λ h. plain) 7 (some new_session) two_cores ≡ ok (true, first)
unfolding accept add_session returned process_connect register_recv init_session releases
    alloc_buffer create_queue
first_accepted = refl

first_in : has 7 (first.cores 0).sessions ≡ true
unfolding accept add_session returned process_connect register_recv init_session releases
    alloc_buffer create_queue insert has
first_in = refl

accept-in_turn_example :
    (session_num first 0 ≤ session_num first 1 + 1) × (first.curr_alloc_core_num < first.core_cnt)
unfolding has
accept-in_turn_example =
    accept-in_turn (λ h. plain) two_cores first 0 1 refl (λ k. refl)
      (one_more 7 0 new_session first nobody (λ i. refl) first_accepted first_in) (omega arith)
      (omega arith)
