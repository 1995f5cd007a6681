-- ===== src/RioServer.antt =====
-- ServerCore/Network/RioServer.cpp: the cores of a server, and the sessions that it gives to them.
pub mod Turns
mod Tests
use rio_iocp_server.Prelude.{
  ℕ, ◌+◌, ◌%◌, Bool, true, false, Option, none, some, List, [], if◌then◌else◌, leb, ℤ, pos, ◌+ℤ◌,
  Outcome, ok, ub, ◌>>=◌, at,
}
use rio_iocp_server.RioSession.Defs.{RioSession, World}
use rio_iocp_server.RioSession.Connection.{process_connect}
use rio_iocp_server.RioCore.{RioCore, add_session, returned}

-- `m_rioCores` has `core_cnt` elements.
pub record RioServer : Type 0 where
  pub cores : ℕ → RioCore
  pub core_cnt : ℕ
  pub curr_alloc_core_num : ℕ
  pub session_cnt : ℤ

-- `Accept`. `session` is the object that the factory made, when a socket was accepted for it.
unfoldable pub accept : (ℕ → World) → ℕ → Option RioSession → RioServer → Outcome (Bool × RioServer)
accept worlds h none s = ok (false, s)
accept worlds h (some session) s =
    let i : ℕ = s.curr_alloc_core_num in
    let made = record (s.cores i) { objects = at h session (s.cores i).objects } in
    let given = add_session h made >>= λ core.
    returned h (process_connect (worlds h) session) core >>= λ core'. ok (
      true,
      record s {
        cores = at i core' s.cores;
        curr_alloc_core_num = (i + 1) % s.core_cnt;
        session_cnt = s.session_cnt +ℤ pos 1;
      },
    ) in
    if leb s.core_cnt i then ub else given
