-- ===== src/IocpService/Steps.antt =====
-- A service over its whole life: what it accepts, what ends, and what the sessions do, in any order.
use rio_iocp_server.Prelude.{
  ℕ, zero, suc, ◌+◌, ◌≡◌, refl, sym, ap, ◌∙◌, Bool, true, not, List, [], ◌∷◌, if_lem, ltb, pos, ok,
  IfOk, IfOk-bind, IfOk_ok, has, Distinct, arith,
}
use rio_iocp_server.IocpSession.{IocpSession, disconnect}
use rio_iocp_server.IocpService.{
  IocpService, Windows, set_session, end_session, disconnect_each, disconnect_all_session,
  register_accept, process_accept, register_each, start_accept,
}
use rio_iocp_server.IocpService.Serving.{
  Serving, Serving-ext, register-Serving, process_accept-Serving, end-Serving,
}

pub data Step (windows : Windows) : IocpService → IocpService → Type 1 where
  accepts :
      {s s' : IocpService} (fuel event : ℕ)
      → has event s.posted ≡ true
      → process_accept windows fuel event s ≡ ok s'
      → Step windows s s'
  ends :
      {s : IocpService} (h : ℕ)
      → has h s.server_sessions ≡ true
      → Step windows s (end_session windows h s)
  acts : {s : IocpService} (h : ℕ) (t : IocpSession) → Step windows s (set_session h t s)
  disconnects : {s : IocpService} → Step windows s (disconnect_all_session windows s)

-- The service as it is made.
abbrev pub new_service : (ℕ → IocpSession) → IocpService
new_service sessions = record {
  server_sessions = [];
  session_cnt = pos 0;
  made = 0;
  sessions = sessions;
  accept_session = λ e. 0;
  posted = [];
}

-- The states that a service comes to, after `StartAccept` for `thread_cnt` events.
pub data Serves (windows : Windows) (thread_cnt : ℕ) : IocpService → Type 1 where
  begins :
      {s : IocpService} (fuel : ℕ) (sessions : ℕ → IocpSession)
      → start_accept windows fuel thread_cnt (new_service sessions) ≡ ok (true, s)
      → Serves windows thread_cnt s
  goes_on :
      {s s' : IocpService}
      → Serves windows thread_cnt s
      → Step windows s s'
      → Serves windows thread_cnt s'

-- What a session does by itself is not the service's.
acts-Serving :
    (P : ℕ → Bool) (h : ℕ) (t : IocpSession) (s : IocpService)
    → Serving P s
    → Serving P (set_session h t s)
acts-Serving P h t s v = record {
  once = v.once;
  all = v.all;
  own = v.own;
  waiting = v.waiting;
  accept_made = v.accept_made;
  made = v.made;
  distinct = v.distinct;
  counted = v.counted;
}

disconnect_each-Serving :
    (windows : Windows) (P : ℕ → Bool) (hs : List ℕ) (s : IocpService)
    → Serving P s
    → Serving P (disconnect_each windows hs s)
unfolding disconnect_each
disconnect_each-Serving windows P [] s v = v
disconnect_each-Serving windows P (h ∷ hs) s v =
    let t = disconnect (windows.world h) (s.sessions h) in
    disconnect_each-Serving windows P hs (set_session h t s) (acts-Serving P h t s v)

Step-Serving :
    (windows : Windows) (P : ℕ → Bool) (s s' : IocpService)
    → Step windows s s'
    → Serving P s
    → Serving P s'
unfolding disconnect_all_session
Step-Serving windows P s s' (accepts fuel event posted e) v =
    IfOk_ok (Serving P) _ s'
      (process_accept-Serving windows P fuel event s (sym (v.all event) ∙ posted) v) e
Step-Serving windows P s _ (ends h there) v = end-Serving windows P h s there v
Step-Serving windows P s _ (acts h t) v = acts-Serving P h t s v
Step-Serving windows P s _ disconnects v = disconnect_each-Serving windows P s.server_sessions s v

-- The events of `StartAccept`, one after the other.
register_each-Serving :
    (windows : Windows) (fuel count event n : ℕ) (s : IocpService)
    → event + count ≡ n
    → Serving (λ e. ltb e event) s
    → IfOk (Serving (λ e. ltb e n)) (register_each windows fuel count event s)
unfolding register_each
register_each-Serving windows fuel zero event n s e v =
    Serving-ext _ _ s (λ k. ap (ltb k) (plus_zero event n e)) v
  where
    plus_zero : (event n : ℕ) → event + 0 ≡ n → event ≡ n
    plus_zero event n e = omega arith
register_each-Serving windows fuel (suc count) event n s e v =
    IfOk-bind (Serving (λ k. ltb k (event + 1))) (Serving (λ k. ltb k n))
      (register_accept windows fuel event s) (λ s'. register_each windows fuel count (event + 1) s')
      (register-Serving windows (λ k. ltb k event) (λ k. ltb k (event + 1)) fuel event s
        (ground arith) (λ k. ground arith) v)
      (λ s' v'. register_each-Serving windows fuel count (event + 1) n s' (omega (arith, e)) v')

new-Serving : (sessions : ℕ → IocpSession) → Serving (λ e. ltb e 0) (new_service sessions)
unfolding has Distinct
new-Serving sessions = record {
  once = tt;
  all = λ e. ground arith;
  own = λ e e' p p' n same. ground (arith, p);
  waiting = λ e p. refl;
  accept_made = λ e p. ground (arith, p);
  made = λ h there. ground (arith, there);
  distinct = tt;
  counted = refl;
}

start_accept-Serving :
    (windows : Windows) (fuel thread_cnt : ℕ) (sessions : ℕ → IocpSession)
    → IfOk
        (λ (r : Bool × IocpService). r.0 ≡ true → Serving (λ e. ltb e thread_cnt) r.1)
        (start_accept windows fuel thread_cnt (new_service sessions))
unfolding start_accept
start_accept-Serving windows fuel thread_cnt sessions =
    let P = λ (r : Bool × IocpService). r.0 ≡ true → Serving (λ e. ltb e thread_cnt) r.1 in
    if_lem (IfOk P) (not windows.listens) _ _ (λ fails no_start. absurd (ground (arith, no_start)))
      (λ works.
        IfOk-bind (Serving (λ e. ltb e thread_cnt)) P
          (register_each windows fuel thread_cnt 0 (new_service sessions)) (λ s'. ok (true, s'))
          (register_each-Serving windows fuel thread_cnt 0 thread_cnt (new_service sessions)
            (omega arith) (new-Serving sessions))
          (λ s' v started. v))

-- A service that accepts for `thread_cnt` threads, after any accepts, failed accepts, ends of its
-- sessions, calls of the sessions and calls of `DisconnectAllSession`, in any order: each of its accept
-- events is posted, once, so that none is ever lost; each has a session of its own, which was made and is
-- not in the set of the service; and the set has no session twice, only sessions that were made,
-- and as many as `m_sessionCnt` says. A session that ends is taken to be in the set, and each handler to
-- be done before the next one begins.
pub Serves-Serving :
    (windows : Windows) (thread_cnt : ℕ) (s : IocpService)
    → Serves windows thread_cnt s
    → Serving (λ e. ltb e thread_cnt) s
Serves-Serving windows thread_cnt s (begins fuel sessions e) =
    IfOk_ok (λ (r : Bool × IocpService). r.0 ≡ true → Serving (λ e. ltb e thread_cnt) r.1) _
      (true, s) (start_accept-Serving windows fuel thread_cnt sessions) e refl
Serves-Serving windows thread_cnt s (goes_on {s = before} serves step) =
    Step-Serving windows (λ e. ltb e thread_cnt) before s step
      (Serves-Serving windows thread_cnt before serves)
