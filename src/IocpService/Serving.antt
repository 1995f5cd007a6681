-- ===== src/IocpService/Serving.antt =====
-- The sessions and the accept events of a service, and what `ProcessAccept`, `AddSession` and
-- `ReleaseSession` make of them.
use rio_iocp_server.Prelude.{
  ℕ, suc, ◌<◌, ◌≡◌, ◌≢◌, sym, ap, ap₂, ◌⊎◌, ◌∙◌, subst, inl, inr, Bool, true, false, not, ◌&&◌,
  ◌||◌, [], ◌∷◌, if_lem, ◌==◌, pos, ◌+ℤ◌, ◌-ℤ◌, IfOk, IfOk-imp, Bool-cases, same_id, other_id, has,
  erase, Distinct, has-append, has-insert, has-erase, erase-Distinct, append-Distinct,
  insert-Distinct, length-insert, length-erase, length, arith,
}
use rio_iocp_server.IocpService.{
  IocpService, Windows, add_session, release_session, connect_session, end_session, register_accept,
  process_accept,
}
use rio_iocp_server.IocpService.Accepting.{Accepted, register_accept-Accepted}

-- The events that are posted are those of `P`, each once; each has a session of its own, which is not in
-- the set of the service; and the set has no session twice, only those made, and as many as are counted.
pub record Serving (P : ℕ → Bool) (s : IocpService) : Type 0 where
  pub once : Distinct s.posted
  pub all : (e : ℕ) → has e s.posted ≡ P e
  pub own :
      (e e' : ℕ) → P e ≡ true → P e' ≡ true → e ≢ e' → s.accept_session e ≢ s.accept_session e'
  pub waiting : (e : ℕ) → P e ≡ true → has (s.accept_session e) s.server_sessions ≡ false
  pub accept_made : (e : ℕ) → P e ≡ true → s.accept_session e < s.made
  pub made : (h : ℕ) → has h s.server_sessions ≡ true → h < s.made
  pub distinct : Distinct s.server_sessions
  pub counted : s.session_cnt ≡ pos (length s.server_sessions)

pub Serving-ext :
    (P Q : ℕ → Bool) (s : IocpService) → ((e : ℕ) → P e ≡ Q e) → Serving P s → Serving Q s
Serving-ext P Q s same v = record {
  once = v.once;
  all = λ e. v.all e ∙ same e;
  own = λ e e' p q. v.own e e' (same e ∙ p) (same e' ∙ q);
  waiting = λ e p. v.waiting e (same e ∙ p);
  accept_made = λ e p. v.accept_made e (same e ∙ p);
  made = v.made;
  distinct = v.distinct;
  counted = v.counted;
}

-- The new event, or one of before.
event_cases :
    (P : ℕ → Bool) (event e : ℕ)
    → ((e == event) || P e) ≡ true
    → (e ≡ event) ⊎ ((e ≢ event) × (P e ≡ true))
event_cases P event e h = elim (Bool-cases (e == event)) [
  | inl same ↦ inl (same_id e event same)
  | inr other ↦ inr (other_id e event other, ground (arith, h, other))
]

module _ (P : ℕ → Bool) (event : ℕ) (s s' : IocpService) (v : Serving P s)
    (a : Accepted event s s') where
  abbrev now : ℕ → Bool
  now e = (e == event) || P e

  old_made : (e : ℕ) → e ≢ event → P e ≡ true → s'.accept_session e < s'.accept_session event
  old_made e other p = omega (arith, a.others e other, v.accept_made e p, a.made_before)

  Accepted-own :
      (e e' : ℕ)
      → now e ≡ true
      → now e' ≡ true
      → e ≢ e'
      → s'.accept_session e ≢ s'.accept_session e'
  Accepted-own e e' p p' n eq = elim (event_cases P event e p) [
    | inl new ↦ elim (event_cases P event e' p') [
      | inl new' ↦ n (new ∙ sym new')
      | inr old' ↦ omega (arith, old_made e' old'.0 old'.1, ap s'.accept_session new, eq)
    ]
    | inr old ↦ elim (event_cases P event e' p') [
      | inl new' ↦ omega (arith, old_made e old.0 old.1, ap s'.accept_session new', eq)
      | inr old' ↦ v.own e e' old.1 old'.1 n (sym (a.others e old.0) ∙ eq ∙ a.others e' old'.0)
    ]
  ]

  Accepted-waiting : (e : ℕ) → now e ≡ true → has (s'.accept_session e) s'.server_sessions ≡ false
  Accepted-waiting e p = elim (event_cases P event e p) [
    | inl new ↦ elim (Bool-cases (has (s'.accept_session e) s'.server_sessions)) [
      | inl there ↦ absurd (
          omega (
            arith,
            v.made (s'.accept_session e)
                (ap (has (s'.accept_session e)) (sym a.sessions_as) ∙ there),
            ap s'.accept_session new,
            a.made_before,
          ))
      | inr out ↦ out
    ]
    | inr old ↦ ap₂ (λ (h : ℕ) hs. has h hs) (a.others e old.0) a.sessions_as ∙ v.waiting e old.1
  ]

  Accepted-made : (e : ℕ) → now e ≡ true → s'.accept_session e < s'.made
  Accepted-made e p = elim (event_cases P event e p) [
    | inl new ↦ omega (arith, ap s'.accept_session new, a.made_now)
    | inr old ↦ omega (arith, old_made e old.0 old.1, a.made_now)
  ]

  -- An event that was not posted is.
  Accepted-Serving : P event ≡ false → Serving now s'
  unfolding has
  Accepted-Serving idle = record {
    once =
        subst Distinct (sym a.posted_as)
          (append-Distinct event s.posted (v.all event ∙ idle) v.once);
    all =
        λ e. ap (has e) a.posted_as ∙ has-append e s.posted (event ∷ []) ∙ ground (arith, v.all e);
    own = Accepted-own;
    waiting = Accepted-waiting;
    accept_made = Accepted-made;
    made = λ h there.
        omega (arith, v.made h (ap (has h) (sym a.sessions_as) ∙ there), a.made_before, a.made_now);
    distinct = subst Distinct (sym a.sessions_as) v.distinct;
    counted = a.cnt_as ∙ v.counted ∙ ap (λ hs. pos (length hs)) (sym a.sessions_as);
  }

-- An event is completed, and waits no longer.
completed-Serving :
    (P : ℕ → Bool) (event : ℕ) (s : IocpService)
    → Serving P s
    → Serving (λ e. not (e == event) && P e) (record s { posted = erase event s.posted })
completed-Serving P event s v = record {
  once = erase-Distinct event s.posted v.once;
  all = λ e. has-erase e event s.posted ∙ ap (λ b. not (e == event) && b) (v.all e);
  own = λ e e' p p'. v.own e e' (ground (arith, p)) (ground (arith, p'));
  waiting = λ e p. v.waiting e (ground (arith, p));
  accept_made = λ e p. v.accept_made e (ground (arith, p));
  made = v.made;
  distinct = v.distinct;
  counted = v.counted;
}

up_one : (n : ℕ) → pos n +ℤ pos 1 ≡ pos (suc n)
unfolding ◌+ℤ◌
up_one n = ground arith

down_one : (n : ℕ) → pos (suc n) -ℤ pos 1 ≡ pos n
unfolding ◌-ℤ◌
down_one n = ground arith

-- A session that no event has joins the set.
connect-Serving :
    (windows : Windows) (P : ℕ → Bool) (h : ℕ) (s : IocpService)
    → h < s.made
    → has h s.server_sessions ≡ false
    → ((e : ℕ) → P e ≡ true → s.accept_session e ≢ h)
    → Serving P s
    → Serving P (connect_session windows h s)
unfolding connect_session add_session
connect-Serving windows P h s known new free v = record {
  once = v.once;
  all = v.all;
  own = v.own;
  waiting = λ e p. has-insert _ h s.server_sessions ∙ ground (arith, free e p, v.waiting e p);
  accept_made = v.accept_made;
  made = λ k there. elim (Bool-cases (k == h)) [
    | inl same ↦ omega (arith, known, same_id k h same)
    | inr other ↦ v.made k (ground (arith, other, there, has-insert k h s.server_sessions))
  ];
  distinct = insert-Distinct h s.server_sessions v.distinct;
  counted =
      ap (λ c. c +ℤ pos 1) v.counted
      ∙ up_one (length s.server_sessions)
      ∙ ap pos (sym (length-insert h s.server_sessions new));
}

pub end-Serving :
    (windows : Windows) (P : ℕ → Bool) (h : ℕ) (s : IocpService)
    → has h s.server_sessions ≡ true
    → Serving P s
    → Serving P (end_session windows h s)
unfolding end_session release_session
end-Serving windows P h s there v = record {
  once = v.once;
  all = v.all;
  own = v.own;
  waiting = λ e p. has-erase _ h s.server_sessions ∙ ground (arith, v.waiting e p);
  accept_made = v.accept_made;
  made = λ k k_there. v.made k (ground (arith, has-erase k h s.server_sessions, k_there));
  distinct = erase-Distinct h s.server_sessions v.distinct;
  counted =
      ap (λ c. c -ℤ pos 1)
        (v.counted ∙ ap pos (sym (length-erase h s.server_sessions v.distinct there)))
      ∙ down_one (length (erase h s.server_sessions));
}

-- `RegisterAccept` for an event that is not posted.
pub register-Serving :
    (windows : Windows) (P Q : ℕ → Bool) (fuel event : ℕ) (s : IocpService)
    → P event ≡ false
    → ((e : ℕ) → ((e == event) || P e) ≡ Q e)
    → Serving P s
    → IfOk (Serving Q) (register_accept windows fuel event s)
register-Serving windows P Q fuel event s idle same v =
    IfOk-imp (Accepted event s) (Serving Q) (register_accept windows fuel event s)
      (λ s' a. Serving-ext _ Q s' same (Accepted-Serving P event s s' v a idle))
      (register_accept-Accepted windows fuel event s)

pub process_accept-Serving :
    (windows : Windows) (P : ℕ → Bool) (fuel event : ℕ) (s : IocpService)
    → P event ≡ true
    → Serving P s
    → IfOk (Serving P) (process_accept windows fuel event s)
unfolding process_accept
process_accept-Serving windows P fuel event s posted v =
    let c = record s { posted = erase event s.posted } in
    let rest = λ (e : ℕ). not (e == event) && P e in
    let waits = completed-Serving P event s v in
    if_lem (IfOk (Serving P)) (not (windows.updates_socket (s.accept_session event))) _ _
      (λ fails. register-Serving windows rest P fuel event c (gone event) back waits)
      (λ works.
        register-Serving windows rest P fuel event
          (connect_session windows (s.accept_session event) c) (gone event) back
          (connect-Serving windows rest (s.accept_session event) c (v.accept_made event posted)
            (v.waiting event posted)
            (λ e p. v.own e event (ground (arith, p)) posted (λ same. ground (arith, p, same)))
            waits))
  where
    gone : (e : ℕ) → (not (e == e) && P e) ≡ false
    gone e = ground arith

    back : (e : ℕ) → ((e == event) || (not (e == event) && P e)) ≡ P e
    back e = ground (arith, posted, same_P e)
      where
        same_P : (e : ℕ) → e ≡ event → P e ≡ P event
        same_P e = ap P
