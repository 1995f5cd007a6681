-- ===== src/IocpService/Accepting.antt =====
-- `RegisterAccept` of IocpListener.cpp.
use rio_iocp_server.Prelude.{
  ℕ, zero, suc, ◌+◌, ◌≤◌, ◌<◌, ◌≡◌, ◌≢◌, refl, sym, ap, ◌∙◌, true, false, not, Option, [], ◌∷◌,
  ◌++◌, if◌then◌else◌, if_lem, if_true, if_false, Outcome, ok, ub, running, ◌>>=◌, deref, IfOk,
  IfOk-imp, Bool-cases, inl, inr, subst, arith, at, at_self, at_other,
}
use rio_iocp_server.IocpService.{IocpService, Windows, create_session, register_accept}

-- What a call that returns has done: the event is posted with a session of its own that is new, and
-- nothing else that the service keeps has changed.
pub record Accepted (event : ℕ) (s s' : IocpService) : Type 0 where
  pub posted_as : s'.posted ≡ s.posted ++ event ∷ []
  pub sessions_as : s'.server_sessions ≡ s.server_sessions
  pub cnt_as : s'.session_cnt ≡ s.session_cnt
  pub made_before : s.made ≤ s'.accept_session event
  pub made_now : s'.accept_session event < s'.made
  pub others : (e : ℕ) → e ≢ event → s'.accept_session e ≡ s.accept_session e

-- The state in which AcceptEx is called.
abbrev prepared : Windows → ℕ → IocpService → IocpService
prepared windows event s = record s {
  sessions = at s.made windows.new_session s.sessions;
  made = s.made + 1;
  accept_session = at event s.made s.accept_session;
}

abbrev accepting : Windows → ℕ → IocpService → IocpService
accepting windows event s =
    let p = prepared windows event s in record p { posted = p.posted ++ event ∷ [] }

accepting-Accepted :
    (windows : Windows) (event : ℕ) (s : IocpService) → Accepted event s (accepting windows event s)
accepting-Accepted windows event s = record {
  posted_as = refl;
  sessions_as = refl;
  cnt_as = refl;
  made_before = omega (arith, at_self event s.made s.accept_session);
  made_now = omega (arith, at_self event s.made s.accept_session);
  others = λ e n. at_other event s.made s.accept_session e n;
}

Accepted-again :
    (windows : Windows) (event : ℕ) (s s' : IocpService)
    → Accepted event (prepared windows event s) s'
    → Accepted event s s'
Accepted-again windows event s s' a = record {
  posted_as = a.posted_as;
  sessions_as = a.sessions_as;
  cnt_as = a.cnt_as;
  made_before = omega (arith, a.made_before);
  made_now = a.made_now;
  others = λ e n. a.others e n ∙ at_other event s.made s.accept_session e n;
}

-- The rest of a call, when `CreateSession` has returned.
abbrev accept_on : Windows → ℕ → ℕ → Option ℕ × IocpService → Outcome IocpService
accept_on windows fuel event (session, c) = deref session >>= λ h.
    if windows.starts_accept h
    then ok
        (record c { accept_session = at event h c.accept_session; posted = c.posted ++ event ∷ [] })
    else register_accept windows fuel event
        (record c { accept_session = at event h c.accept_session })

-- One call, by the answers for the session that it makes.
refused :
    (windows : Windows) (fuel event : ℕ) (s : IocpService)
    → windows.registers s.made ≡ false
    → register_accept windows (suc fuel) event s ≡ ub
unfolding register_accept create_session
refused windows fuel event s e = ap (accept_on windows fuel event) (if_true _ _ _ (ap not e))

taken :
    (windows : Windows) (fuel event : ℕ) (s : IocpService)
    → windows.registers s.made ≡ true
    → register_accept windows (suc fuel) event s ≡ (
        if windows.starts_accept s.made
        then ok (accepting windows event s)
        else register_accept windows fuel event (prepared windows event s))
unfolding register_accept create_session
taken windows fuel event s e = ap (accept_on windows fuel event) (if_false _ _ _ (ap not e))

pub register_accept-Accepted :
    (windows : Windows) (fuel event : ℕ) (s : IocpService)
    → IfOk (Accepted event s) (register_accept windows fuel event s)
unfolding register_accept
register_accept-Accepted windows zero event s = tt
register_accept-Accepted windows (suc fuel) event s = elim (Bool-cases (windows.registers s.made)) [
  | inr no_port ↦ subst (IfOk (Accepted event s)) (sym (refused windows fuel event s no_port)) tt
  | inl port ↦ subst (IfOk (Accepted event s)) (sym (taken windows fuel event s port)) (
      if_lem (IfOk (Accepted event s)) (windows.starts_accept s.made) _ _
        (λ starts. accepting-Accepted windows event s)
        (λ fails.
          IfOk-imp (Accepted event (prepared windows event s)) (Accepted event s) _
            (Accepted-again windows event s)
            (register_accept-Accepted windows fuel event (prepared windows event s))))
]

-- AcceptEx fails for the next `n` sessions, all of which the completion port takes.
abbrev pub Fails : Windows → ℕ → ℕ → Type 0
Fails windows made n =
    (i : ℕ)
    → i < n
    → (windows.registers (made + i) ≡ true) × (windows.starts_accept (made + i) ≡ false)

-- The three ways in which a call goes on after `n` failures.
register_accept_lem :
    (windows : Windows) (fuel n event : ℕ) (s : IocpService)
    → Fails windows s.made n
    → (fuel ≤ n → register_accept windows fuel event s ≡ running)
      × (n < fuel
          → windows.registers (s.made + n) ≡ false
          → register_accept windows fuel event s ≡ ub)
      × (n < fuel
          → windows.registers (s.made + n) ≡ true
          → windows.starts_accept (s.made + n) ≡ true
          → (s' : IocpService) × (register_accept windows fuel event s ≡ ok s')
            × (s'.accept_session event ≡ s.made + n)
            × (s'.made ≡ s.made + n + 1)
            × Accepted event s s')
unfolding register_accept
register_accept_lem windows zero n event s fails =
    (λ l. refl, λ l. absurd (omega (arith, l)), λ l. absurd (omega (arith, l)))
register_accept_lem windows (suc fuel) zero event s fails = (
  λ l. absurd (omega (arith, l)),
  λ l no_port. refused windows fuel event s (ap windows.registers (plus_zero s.made) ∙ no_port),
  λ l port starts. (
    accepting windows event s,
    taken windows fuel event s (ap windows.registers (plus_zero s.made) ∙ port)
        ∙ if_true _ _ _ (ap windows.starts_accept (plus_zero s.made) ∙ starts),
    at_self event s.made s.accept_session ∙ plus_zero s.made,
    omega arith,
    accepting-Accepted windows event s,
  ),
)
  where
    plus_zero : (m : ℕ) → m ≡ m + 0
    plus_zero m = omega arith
register_accept_lem windows (suc fuel) (suc n) event s fails =
    let (port, stops) = fails 0 (omega arith) in
    let once =
      taken windows fuel event s (ap windows.registers (plus_zero s.made) ∙ port)
      ∙ if_false _ _ _ (ap windows.starts_accept (plus_zero s.made) ∙ stops) in
    let (runs, breaks, returns) =
      register_accept_lem windows fuel n event (prepared windows event s) (λ i l.
        let (p, q) = fails (suc i) (omega (arith, l)) in
        (
          ap windows.registers (shift s.made i) ∙ p,
          ap windows.starts_accept (shift s.made i) ∙ q,
        )) in
    (
      λ l. once ∙ runs (omega (arith, l)),
      λ l no_port.
          once ∙ breaks (omega (arith, l)) (ap windows.registers (shift s.made n) ∙ no_port),
      λ l last starts.
          let (s', e, own, made, accepted) =
            returns (omega (arith, l)) (ap windows.registers (shift s.made n) ∙ last)
              (ap windows.starts_accept (shift s.made n) ∙ starts) in
          (
            s',
            once ∙ e,
            own ∙ shift s.made n,
            omega (arith, made),
            Accepted-again windows event s s' accepted,
          ),
    )
  where
    plus_zero : (m : ℕ) → m ≡ m + 0
    plus_zero m = omega arith

    shift : (m i : ℕ) → m + 1 + i ≡ m + suc i
    shift m i = omega arith

-- `RegisterAccept` calls itself, with a new session, for as long as AcceptEx fails: after `n` failures it
-- is in its `n`-th call of itself, so that no fixed depth is enough. When AcceptEx starts for the next
-- session, which the completion port takes as it took those before, the call returns: the event is
-- posted with that session, the `n` sessions before it were made for nothing, and nothing else that the
-- service keeps has changed.
pub register_accept-returns :
    (windows : Windows) (fuel n event : ℕ) (s : IocpService)
    → Fails windows s.made n
    → windows.registers (s.made + n) ≡ true
    → windows.starts_accept (s.made + n) ≡ true
    → n < fuel
    → (register_accept windows n event s ≡ running)
      × ((s' : IocpService) × (register_accept windows fuel event s ≡ ok s')
          × (s'.accept_session event ≡ s.made + n)
          × (s'.made ≡ s.made + n + 1)
          × Accepted event s s')
register_accept-returns windows fuel n event s fails port starts enough = (
  (register_accept_lem windows n n event s fails).0 (omega arith),
  (register_accept_lem windows fuel n event s fails).2 enough port starts,
)

-- When the completion port does not take the session that `RegisterAccept` makes after `n` failures of
-- AcceptEx, `CreateSession` returns null, and the call uses it: undefined behaviour.
pub register_accept-null :
    (windows : Windows) (fuel n event : ℕ) (s : IocpService)
    → Fails windows s.made n
    → windows.registers (s.made + n) ≡ false
    → n < fuel
    → register_accept windows fuel event s ≡ ub
register_accept-null windows fuel n event s fails no_port enough =
    (register_accept_lem windows fuel n event s fails).1 enough no_port
