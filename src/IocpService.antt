-- ===== src/IocpService.antt =====
-- ServerCore/Network/IocpService.cpp, IocpListener.cpp and IocpClient.cpp: the sessions of a service over
-- I/O completion ports, and the requests that accept them.
-- Sessions and accept events are numbers. What Windows answers may depend on the session that a call is
-- for; of the session's own methods see the module IocpSession.
pub mod Accepting
pub mod Serving
pub mod Steps
mod Tests
use rio_iocp_server.Prelude.{
  ℕ, zero, suc, ◌+◌, Bool, true, false, Option, none, some, List, [], ◌∷◌, ◌++◌, if◌then◌else◌, not,
  ℤ, pos, ◌+ℤ◌, ◌-ℤ◌, Outcome, ok, ub, running, ◌>>=◌, deref, insert, erase, at,
}
use rio_iocp_server.IocpSession.{
  IocpSession, IocpWorld, IoType, io_accept, process_connect, process_disconnect, disconnect,
  register_connect,
}

-- `server_sessions` is the set of the service, and `made` counts the sessions made by the factory.
-- `accept_session` has the session of an accept event, and `posted` the events that AcceptEx has.
pub record IocpService : Type 0 where
  pub server_sessions : List ℕ
  pub session_cnt : ℤ
  pub made : ℕ
  pub sessions : ℕ → IocpSession
  pub accept_session : ℕ → ℕ
  pub posted : List ℕ

-- The session that the factory makes; whether the completion port takes a session (`Register`), AcceptEx
-- starts for it and its socket can be updated; whether the socket of the listener gets as far as
-- `Listen`; and the world of each session.
pub record Windows : Type 1 where
  pub new_session : IocpSession
  pub registers : ℕ → Bool
  pub starts_accept : ℕ → Bool
  pub updates_socket : ℕ → Bool
  pub listens : Bool
  pub world : ℕ → IocpWorld

abbrev pub set_session : ℕ → IocpSession → IocpService → IocpService
set_session h t s = record s { sessions = at h t s.sessions }

-- `AddSession`
unfoldable pub add_session : ℕ → IocpService → IocpService
add_session h s = record s {
  server_sessions = insert h s.server_sessions;
  session_cnt = s.session_cnt +ℤ pos 1;
}

-- `ReleaseSession`
unfoldable pub release_session : ℕ → IocpService → IocpService
release_session h s = record s {
  server_sessions = erase h s.server_sessions;
  session_cnt = s.session_cnt -ℤ pos 1;
}

module _ (windows : Windows) where
  -- `CreateSession`; `none` is the null pointer.
  unfoldable pub create_session : IocpService → Option ℕ × IocpService
  create_session s =
      let created = set_session s.made windows.new_session (record s { made = s.made + 1 }) in
      if not (windows.registers s.made) then (none, created) else (some s.made, created)

  -- The loop of `DisconnectAllSession`.
  unfoldable pub disconnect_each : List ℕ → IocpService → IocpService
  disconnect_each [] s = s
  disconnect_each (h ∷ hs) s =
      disconnect_each hs (set_session h (disconnect (windows.world h) (s.sessions h)) s)

  -- `DisconnectAllSession`
  unfoldable pub disconnect_all_session : IocpService → IocpService
  disconnect_all_session s = disconnect_each s.server_sessions s

  -- `ProcessConnect` of a session, with the `AddSession` that it calls.
  unfoldable pub connect_session : ℕ → IocpService → IocpService
  connect_session h s =
      add_session h (set_session h (process_connect (windows.world h) (s.sessions h)) s)

  -- `ProcessDisconnect` of a session, with the `ReleaseSession` that it calls.
  unfoldable pub end_session : ℕ → IocpService → IocpService
  end_session h s =
      release_session h (set_session h (process_disconnect (windows.world h) (s.sessions h)) s)

  -- `RegisterAccept`, which calls itself when AcceptEx fails. The session is used without a check.
  unfoldable pub register_accept : ℕ → ℕ → IocpService → Outcome IocpService
  register_accept zero event s = running
  register_accept (suc fuel) event s =
      let (session, created) = create_session s in
      let again = λ (h : ℕ).
        register_accept fuel event
          (record created { accept_session = at event h created.accept_session }) in
      let accepting = λ (h : ℕ). ok (record created {
        accept_session = at event h created.accept_session;
        posted = created.posted ++ event ∷ [];
      }) in
      deref session >>= λ h. if windows.starts_accept h then accepting h else again h

  -- `ProcessAccept`; the event is no longer posted.
  unfoldable pub process_accept : ℕ → ℕ → IocpService → Outcome IocpService
  process_accept fuel event s =
      let h : ℕ = s.accept_session event in
      let completed = record s { posted = erase event s.posted } in
      if not (windows.updates_socket h)
      then register_accept fuel event completed
      else register_accept fuel event (connect_session h completed)

  -- `Dispatch` of the listener; it only reports an event of another type.
  unfoldable pub dispatch_accept : ℕ → Bool → ℕ → IocpService → Outcome IocpService
  dispatch_accept fuel is_accept event s =
      if not is_accept then ok s else process_accept fuel event s

  -- The loop of `StartAccept`, with `count` events to go.
  unfoldable pub register_each : ℕ → ℕ → ℕ → IocpService → Outcome IocpService
  register_each fuel zero event s = ok s
  register_each fuel (suc count) event s =
      register_accept fuel event s >>= λ s'. register_each fuel count (event + 1) s'

  -- `StartAccept`; `thread_cnt` is that of the service.
  unfoldable pub start_accept : ℕ → ℕ → IocpService → Outcome (Bool × IocpService)
  start_accept fuel thread_cnt s =
      if not windows.listens
      then ok (false, s)
      else (register_each fuel thread_cnt 0 s >>= λ s'. ok (true, s'))

  -- `ConnectNewSession` of IocpClient. The session is used without a check.
  unfoldable pub connect_new_session : IocpService → Outcome (Bool × IocpService)
  connect_new_session s =
      let (session, created) = create_session s in
      deref session >>= λ h.
      let (connecting, t) = register_connect (windows.world h) (created.sessions h) in
      ok (connecting, set_session h t created)
