-- ===== src/IocpSession/Threads.antt =====
-- The threads that use the send path of a session (IocpSession.cpp), and the steps that they take.
use rio_iocp_server.Prelude.{
  ℕ, suc, ◌+◌, ◌≤◌, ◌≡◌, Bool, false, List, [], ◌∷◌, ◌++◌, if◌then◌else◌, ◌==◌,
}
use rio_iocp_server.IocpSession.{
  IocpSession, IocpWorld, Call, wsa_send, enqueue, gather, post, complete, disconnect,
}

-- A session, and how many threads are between the locked block of `Send` or `ProcessSend` and
-- `RegisterSend`, how many between the two blocks of `RegisterSend`, and how many requests are pending.
pub record Threads : Type 0 where
  pub session : IocpSession
  pub registering : ℕ
  pub posting : ℕ
  pub pending : ℕ

abbrev pub count : Bool → ℕ
count b = if b then 1 else 0

-- The buffers that `WSASend` was offered, in order.
unfoldable pub offered : List Call → List (List ℕ)
offered [] = []
offered (wsa_send buffers started ∷ log) = buffers ++ offered log
offered (c ∷ log) = offered log

-- What a thread does in one go: each locked block, and each call of `WSASend`. `Send` looks at
-- `m_bConnected` before its block, which may therefore run in any state.
pub data Runs (world : IocpWorld) (t : Threads) : List (List ℕ) → Threads → Type 0 where
  start : Runs world t [] t
  sends :
      (net_buffer : List ℕ) {buffers : List (List ℕ)} {t' : Threads}
      → Runs world t buffers t'
      → Runs world t (buffers ++ net_buffer ∷ []) (record t' {
        session = (enqueue net_buffer t'.session).1;
        registering = t'.registering + count (enqueue net_buffer t'.session).0;
      })
  gathers :
      {buffers : List (List ℕ)} {t' : Threads} (k : ℕ)
      → Runs world t buffers t'
      → t'.registering ≡ suc k
      → Runs world t buffers (record t' {
        session = (gather t'.session).1;
        registering = k;
        posting = t'.posting + count (gather t'.session).0;
      })
  posts :
      {buffers : List (List ℕ)} {t' : Threads} (k : ℕ)
      → Runs world t buffers t'
      → t'.posting ≡ suc k
      → Runs world t buffers (record t' {
        session = post world t'.session;
        posting = k;
        pending = t'.pending + count (world.starts_send t'.session);
      })
  completes :
      {buffers : List (List ℕ)} {t' : Threads} (bytes_transferred k : ℕ)
      → Runs world t buffers t'
      → t'.pending ≡ suc k
      → Runs world t buffers (record t' {
        session = (complete world bytes_transferred t'.session).1;
        registering = t'.registering + count (complete world bytes_transferred t'.session).0;
        pending = k;
      })
  goes_down :
      {buffers : List (List ℕ)} {t' : Threads}
      → Runs world t buffers t'
      → Runs world t buffers (record t' { session = disconnect world t'.session })

-- The bodies of the virtual methods leave the send path alone.
pub record KeepsSends (world : IocpWorld) : Type 0 where
  pub keeps_queue :
      (c : Call) (s : IocpSession) → (world.on_call c s).send_buffer_queue ≡ s.send_buffer_queue
  pub keeps_event : (c : Call) (s : IocpSession) → (world.on_call c s).send_event ≡ s.send_event
  pub keeps_registered :
      (c : Call) (s : IocpSession) → (world.on_call c s).send_registered ≡ s.send_registered
  pub keeps_offered : (c : Call) (s : IocpSession) → offered (world.on_call c s).log ≡ offered s.log

-- At most one thread or request is on the send path, and none when no send is registered; between
-- requests the event holds no buffers; and the buffers offered, those gathered and those queued are
-- the given ones in order.
pub record Exclusive (buffers : List (List ℕ)) (t : Threads) : Type 0 where
  pub one : t.registering + t.posting + t.pending ≤ 1
  pub free : t.session.send_registered ≡ false → t.registering + t.posting + t.pending ≡ 0
  pub clean : t.posting + t.pending ≡ 0 → t.session.send_event ≡ []
  pub order :
      offered t.session.log
        ++ ((if t.posting == 0 then [] else t.session.send_event) ++ t.session.send_buffer_queue)
      ≡ buffers
