-- ===== src/IocpService/Tests.antt =====
-- A service that accepts for two threads; AcceptEx fails for its first session.
use rio_iocp_server.Prelude.{
  ℕ, zero, suc, ◌≡◌, refl, Bool, true, false, not, [], ◌∷◌, ◌==◌, ltb, pos, Outcome, ok, ub,
  running, arith, has, insert, erase, ◌+ℤ◌,
}
use rio_iocp_server.IocpSession.{IocpSession, IocpWorld}
use rio_iocp_server.IocpService.{
  IocpService, Windows, create_session, add_session, connect_session, end_session, register_accept,
  process_accept, register_each, start_accept,
}
use rio_iocp_server.IocpService.Accepting.{Accepted, Fails, register_accept-returns}
use rio_iocp_server.IocpService.Serving.{Serving}
use rio_iocp_server.IocpService.Steps.{begins, goes_on, accepts, ends, new_service, Serves-Serving}

abbrev idle_session : IocpSession
idle_session = record {
  is_connected = false;
  recv_buffer = record {
    capacity = 4;
    size = 0;
    buffer = 0 ∷ 0 ∷ 0 ∷ 0 ∷ [];
    head_pos = 0;
    tail_pos = 0;
  };
  send_buffer_queue = [];
  send_event = [];
  send_registered = false;
  log = [];
}

abbrev world : IocpWorld
world = record {
  is_client = false;
  set_reuse_addr = λ s. true;
  bind_addr_any = λ s. true;
  starts_connect = λ s. true;
  starts_disconnect = λ s. true;
  starts_recv = λ s. true;
  starts_send = λ s. true;
  on_call = λ c s. s;
}

abbrev windows : Windows
windows = record {
  new_session = idle_session;
  registers = λ h. true;
  starts_accept = λ h. not (h == 0);
  updates_socket = λ h. true;
  listens = true;
  world = λ h. world;
}

abbrev sessions : ℕ → IocpSession
sessions h = idle_session

abbrev result : IocpService → Outcome (Bool × IocpService) → IocpService
result s (ok (done, s')) = s'
result s ub = s
result s running = s

abbrev accepted : IocpService → Outcome IocpService → IocpService
accepted s (ok s') = s'
accepted s ub = s
accepted s running = s

abbrev listening : IocpService
listening = result (new_service sessions) (start_accept windows 9 2 (new_service sessions))

abbrev connected_one : IocpService
connected_one = accepted listening (process_accept windows 9 0 listening)

-- Session 1 came in through event 0, which now waits with session 3.
connected_one_lem :
    (connected_one.server_sessions ≡ 1 ∷ [])
    × (connected_one.posted ≡ 1 ∷ 0 ∷ [])
    × (connected_one.accept_session 0 ≡ 3)
    × (connected_one.session_cnt ≡ pos 1)
unfolding start_accept register_each register_accept create_session process_accept connect_session
    add_session insert erase has ◌+ℤ◌
connected_one_lem = (refl, refl, refl, refl)

Serves-Serving_example : Serving (λ e. ltb e 2) (end_session windows 1 connected_one)
unfolding start_accept register_each register_accept create_session process_accept connect_session
    add_session insert erase has ◌+ℤ◌
Serves-Serving_example =
    Serves-Serving windows 2 (end_session windows 1 connected_one)
      (goes_on (goes_on (begins 9 sessions refl) (accepts 9 0 refl refl)) (ends 1 refl))

windows-Fails : Fails windows 0 1
windows-Fails zero h = (refl, refl)
windows-Fails (suc i) h = absurd (omega (arith, h))

register_accept-returns_example :
    (register_accept windows 1 0 (new_service sessions) ≡ running)
    × ((s' : IocpService) × (register_accept windows 9 0 (new_service sessions) ≡ ok s')
        × (s'.accept_session 0 ≡ 1)
        × (s'.made ≡ 2)
        × Accepted 0 (new_service sessions) s')
register_accept-returns_example =
    register_accept-returns windows 9 1 0 (new_service sessions) windows-Fails refl refl
      (omega arith)

abbrev full_port : Windows
full_port = record windows { registers = λ h. h == 0 }
