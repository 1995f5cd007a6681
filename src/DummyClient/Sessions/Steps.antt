-- ===== src/DummyClient/Sessions/Steps.antt =====
-- How the sessions of the stress test change, and that they stay orderly: every order in which sessions
-- connect, receive, are sent to by the manager, close and expire.
use rio_iocp_server.Prelude.{
  ℕ, ◌<◌, ◌≡◌, refl, Bool, true, false, some, List, [], if◌then◌else◌, if_lem, arith, ok, IfOk_ok,
  pos, at, at_lem,
}
use rio_iocp_server.Game.Defs.{PosInfo}
use rio_iocp_server.DummyClient.Sessions.{
  Client, ClientSession, Outside, close, handle_packet, delete_session,
}
use rio_iocp_server.DummyClient.Sessions.Manager.{
  login_session, send_to_session, disconnect_session, connect_new, manager_send_packet,
  manager_send_login, manager_send_move, manager_disconnect, locked,
}
use rio_iocp_server.DummyClient.Sessions.Orderly.{Ordered, Orderly, requests, Orderly-nil}
use rio_iocp_server.DummyClient.Sessions.Keeps.{
  close-Ordered, send_to_session-Ordered, login_session-Ordered, disconnect_session-Ordered,
  with_session-Ordered, manager_send_move-Ordered, connect_new-Ordered, handle_packet-Ordered,
}

pub data Step (outside : Outside) : Client → Client → Type 0 where
  connects : {c : Client} (unset : PosInfo) → Step outside c (connect_new outside unset c)
  receives :
      {c c' : Client} (h : ℕ) (buffer : List ℕ) (len : ℕ) (handled : Bool)
      → handle_packet outside h buffer len c ≡ ok (handled, c')
      → Step outside c (if handled then c' else close h c')
  sends_packet : {c : Client} (id : ℕ) → Step outside c ((manager_send_packet outside id c).1)
  sends_login : {c : Client} (id : ℕ) → Step outside c ((manager_send_login outside id c).1)
  -- `SendMove` of the manager does not look at `m_bLogin`, and nothing calls it; here a caller has looked.
  sends_move :
      {c : Client} (id : ℕ)
      → ((h : ℕ) → locked outside id c ≡ some h → (c.sessions h).login ≡ true)
      → Step outside c ((manager_send_move outside id c).1)
  disconnects : {c : Client} (id : ℕ) → Step outside c (manager_disconnect outside id c)
  closes : {c : Client} (h : ℕ) → Step outside c (close h c)
  expires : {c : Client} (h : ℕ) → Step outside c (record c { alive = at h false c.alive })
  deletes : {c : Client} (id : ℕ) → Step outside c (delete_session id c)

-- The process as it starts: no session is made. The stores hold no object that anything refers to.
unfoldable pub new_process : (ℕ → ClientSession) → Client
new_process sessions = record {
  session_cnt = 0;
  login_num = 1;
  table = [];
  size = pos 0;
  connect_cnt = pos 0;
  made = 0;
  alive = λ h. false;
  sessions = sessions;
  send_cnt = 0;
  recv_cnt = 0;
  delays = [];
  outbox = [];
}

-- The states that a process comes to.
pub data Reaches (outside : Outside) (start : Client) : Client → Type 0 where
  begins : Reaches outside start start
  goes_on : {c c' : Client} → Reaches outside start c → Step outside c c' → Reaches outside start c'

module _ (outside : Outside) where
  Step-Ordered : (c c' : Client) → Step outside c c' → Ordered c → Ordered c'
  unfolding manager_send_packet manager_send_login manager_send_move manager_disconnect
      delete_session
  Step-Ordered c _ (connects unset) o = connect_new-Ordered outside unset c o
  Step-Ordered c _ (receives {c' = d} h buffer len handled e) o =
      let p =
        IfOk_ok (λ (r : Bool × Client). Ordered r.1) _ (handled, d)
          (handle_packet-Ordered outside h buffer len c o) e in
      if_lem (λ (r : Client). Ordered r) handled d (close h d) (λ t. p) (λ f. close-Ordered h d p)
  Step-Ordered c _ (sends_packet id) o =
      with_session-Ordered outside (send_to_session outside) id c
        (λ h used p. send_to_session-Ordered outside h c used p) o
  Step-Ordered c _ (sends_login id) o =
      with_session-Ordered outside (login_session outside) id c
        (λ h used p. login_session-Ordered outside h c used p) o
  Step-Ordered c _ (sends_move id logged) o = manager_send_move-Ordered outside id c logged o
  Step-Ordered c _ (disconnects id) o =
      with_session-Ordered outside (disconnect_session outside) id c
        (λ h used p. disconnect_session-Ordered outside h c used p) o
  Step-Ordered c _ (closes h) o = close-Ordered h c o
  Step-Ordered c _ (expires h) o = record {
    orderly = o.orderly;
    unused = o.unused;
    in_use = λ k.
        at_lem (λ b. b ≡ true → k < c.made) h false c.alive k (λ e up. absurd (ground (arith, up)))
          (λ e up. o.in_use k up);
  }
  Step-Ordered c _ (deletes id) o = o

  all-Ordered :
      (sessions : ℕ → ClientSession) (c : Client)
      → Reaches outside (new_process sessions) c
      → Ordered c
  unfolding new_process
  all-Ordered sessions _ begins = record {
    orderly = λ h. Orderly-nil _ _;
    unused = λ h e. refl;
    in_use = λ h e. absurd (ground (arith, e));
  }
  all-Ordered sessions d (goes_on {c} r s) = Step-Ordered c d s (all-Ordered sessions c r)

-- Whatever happens to the clients of the stress test - new sessions connect, packets of any bytes come
-- in, the manager calls `SendPacket`, `SendLogin` and `Disconnect` for any ids and `SendMove` for those of
-- sessions that have logged in, sessions close and expire, in any order - each session has given to `Send` at most one login, and nothing before it; after it come only moves, and
-- there is none before the session took a login result that said yes.
pub Reaches-Orderly :
    (outside : Outside) (sessions : ℕ → ClientSession) (c : Client)
    → Reaches outside (new_process sessions) c
    → (h : ℕ) → Orderly (c.sessions h).start_login (c.sessions h).login (requests h c.outbox)
Reaches-Orderly outside sessions c r h = (all-Ordered outside sessions c r).orderly h
