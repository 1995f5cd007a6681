-- ===== src/RioCore.antt =====
-- ServerCore/Network/RioCore.cpp: the sessions of one completion queue.
-- A `shared_ptr<RioSession>` is a number. A session that disconnects has `released` in its log, where
-- it calls `ReleaseSession`; the model executes this call when the method of the session returns.
pub mod Relock
mod Tests
use rio_iocp_server.Prelude.{
  ℕ, Bool, true, false, Option, none, some, List, [], ◌∷◌, if◌then◌else◌, ◌==◌, ℤ, pos, ◌+ℤ◌, ◌-ℤ◌,
  Outcome, ok, ub, ◌>>=◌, insert, erase, at,
}
use rio_iocp_server.RioSession.Defs.{RioSession, World, Call, released}
use rio_iocp_server.RioSession.Receive.{process_recv, process_send}
use rio_iocp_server.RioSession.Send.{send_deferred}

-- `objects` are the sessions that the program has, in the core or not.
pub record RioCore : Type 0 where
  pub session_lock : Bool
  pub sessions : List ℕ
  pub session_cnt : ℤ
  pub objects : ℕ → RioSession

-- `lock_guard<mutex> lock(m_sessionLock)`: to lock a `std::mutex` that the thread holds is undefined.
abbrev pub lock_sessions : RioCore → Outcome RioCore
lock_sessions c = if c.session_lock then ub else ok (record c { session_lock = true })

abbrev pub unlock_sessions : RioCore → RioCore
unlock_sessions c = record c { session_lock = false }

-- `AddSession`
unfoldable pub add_session : ℕ → RioCore → Outcome RioCore
add_session h c = lock_sessions c >>= λ l. ok (
    unlock_sessions
      (record l { sessions = insert h l.sessions; session_cnt = l.session_cnt +ℤ pos 1 }))

-- `ReleaseSession`
unfoldable pub release_session : ℕ → RioCore → Outcome RioCore
release_session h c = lock_sessions c >>= λ l. ok (
    unlock_sessions
      (record l { sessions = erase h l.sessions; session_cnt = l.session_cnt -ℤ pos 1 }))

abbrev pub is_released : Call → Bool
is_released released = true
is_released _ = false

-- Whether there are more calls of `ReleaseSession` in the second log.
unfoldable pub releases : List Call → List Call → Bool
releases [] [] = false
releases [] (c ∷ log') = let rest = releases [] log' in if is_released c then true else rest
releases (c ∷ log) [] = false
releases (c ∷ log) (c' ∷ log') = releases log log'

-- A method of session `h` has returned and left it as `s`.
unfoldable pub returned : ℕ → RioSession → RioCore → Outcome RioCore
returned h s c =
    let stored = record c { objects = at h s c.objects } in
    if releases (c.objects h).log s.log then release_session h stored else ok stored

-- What completes: the requests of `RIO_IO_TYPE`.
pub data IoType : Type 0 where
  recv send : IoType

-- A `RIORESULT`: the owner of the event, which may be null, the event's type, and the bytes.
pub record Completion : Type 0 where
  pub owner : Option ℕ
  pub io_type : IoType
  pub bytes_transferred : ℕ

module _ (worlds : ℕ → World) (fuel : ℕ) where
  -- `RioSession::Dispatch`
  unfoldable pub dispatch_event : ℕ → IoType → ℕ → RioSession → Outcome RioSession
  dispatch_event h recv bytes_transferred s = process_recv (worlds h) fuel bytes_transferred s
  dispatch_event h send bytes_transferred s = ok (process_send (worlds h) bytes_transferred s)

  -- The loop of `Dispatch`.
  unfoldable pub handle_results : List Completion → RioCore → Outcome RioCore
  handle_results [] c = ok c
  handle_results (r ∷ results) c =
      let rest = handle_results results in
      let handle = λ (h : ℕ). dispatch_event h r.io_type r.bytes_transferred (c.objects h) >>= λ s.
      returned h s c >>= rest in
      elim r.owner [ none ↦ rest c | some h ↦ handle h ]

  -- `Dispatch`; `none` is `RIO_CORRUPT_CQ`.
  unfoldable pub dispatch : Option (List Completion) → RioCore → Outcome (Bool × RioCore)
  dispatch none c = ok (false, c)
  dispatch (some []) c = ok (false, c)
  dispatch (some (r ∷ results)) c = handle_results (r ∷ results) c >>= λ c'. ok (true, c')

  -- The loop of `DeferredSend`.
  unfoldable pub defer_loop : List ℕ → RioCore → Outcome RioCore
  defer_loop [] c = ok c
  defer_loop (h ∷ sessions) c =
      let rest = defer_loop sessions in
      send_deferred (worlds h) fuel (c.objects h) >>= λ (sent, s). returned h s c >>= rest

  -- `DeferredSend`
  unfoldable pub deferred_send : RioCore → Outcome RioCore
  deferred_send c = lock_sessions c >>= λ l. defer_loop l.sessions l >>= λ d. ok (unlock_sessions d)
