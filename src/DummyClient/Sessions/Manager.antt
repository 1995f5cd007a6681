-- ===== src/DummyClient/Sessions/Manager.antt =====
-- `TestSessionManager` (DummyClient/StressTest/TestSessionManager.cpp): what it does with its sessions.
use rio_iocp_server.Prelude.{
  ℕ, ◌+◌, Bool, true, false, Option, none, some, if◌then◌else◌, not, ◌&&◌, pos, ◌-ℤ◌, at,
}
use rio_iocp_server.Game.Defs.{PosInfo}
use rio_iocp_server.DummyClient.Sessions.{
  Client, ClientSession, Outside, close, find, send_login, send_move, on_connected,
}

module _ (outside : Outside) where
  -- The session that the manager has for an id: the map has the id, and the pointer can be locked.
  abbrev pub locked : ℕ → Client → Option ℕ
  locked id c = elim (find id c.table) [ none ↦ none | some h ↦ if c.alive h then some h else none ]

  abbrev pub is_known : ℕ → Client → Bool
  is_known id c = elim (find id c.table) [ none ↦ false | some _ ↦ true ]

  -- `SendLogin` of the manager, for a session.
  unfoldable pub login_session : ℕ → Client → Client
  login_session h c =
      let s = c.sessions h in
      if not s.login && s.connect && not s.start_login then send_login outside h c else c

  -- `SendPacket` of the manager, for a session.
  unfoldable pub send_to_session : ℕ → Client → Client
  send_to_session h c =
      let s = c.sessions h in
      let sent =
        if s.login
        then send_move outside h c
        else (if s.connect && not s.start_login then send_login outside h c else c) in
      record sent { send_cnt = sent.send_cnt + 1 }

  -- `Disconnect` of the manager, for a session.
  unfoldable pub disconnect_session : ℕ → Client → Client
  disconnect_session h c =
      let closed = close h c in
      if (c.sessions h).is_connected
      then record closed { connect_cnt = c.connect_cnt -ℤ pos 1 }
      else c

  abbrev pub with_session : (ℕ → Client → Client) → ℕ → Client → Client
  with_session act id c = elim (locked id c) [ none ↦ c | some h ↦ act h c ]

  -- `SendLogin`, `SendMove`, `SendPacket` and `Disconnect` of the manager.
  unfoldable pub manager_send_login : ℕ → Client → Bool × Client
  manager_send_login id c = (is_known id c, with_session login_session id c)

  unfoldable pub manager_send_move : ℕ → Client → Bool × Client
  manager_send_move id c = (is_known id c, with_session (send_move outside) id c)

  unfoldable pub manager_send_packet : ℕ → Client → Bool × Client
  manager_send_packet id c = (is_known id c, with_session send_to_session id c)

  unfoldable pub manager_disconnect : ℕ → Client → Client
  manager_disconnect id c = with_session disconnect_session id c

  -- A session object as its constructor makes it, which `ProcessConnect` marks connected. The position
  -- is not set.
  abbrev pub new_session : PosInfo → ClientSession
  new_session unset = record {
    session_id = pos 0;
    pos_info = unset;
    login = false;
    start_login = false;
    connect = false;
    is_connected = true;
  }

  -- A new session connects.
  unfoldable pub connect_new : PosInfo → Client → Client
  connect_new unset c = on_connected c.made (record c {
    made = c.made + 1;
    alive = at c.made true c.alive;
    sessions = at c.made (new_session unset) c.sessions;
  })
