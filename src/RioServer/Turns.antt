-- ===== src/RioServer/Turns.antt =====
-- `Accept` of RioServer.cpp: the cores get the new sessions in turn.
use rio_iocp_server.Prelude.{
  ℕ, ◌+◌, ◌%◌, ◌≤◌, ◌<◌, ◌≡◌, ◌≢◌, refl, sym, ap, subst, ◌∙◌, ◌⊎◌, inl, inr, Bool, true, false,
  some, [], if_lem, leb, leb→gt, arith, ok, ub, ◌>>=◌, at, at_lem, at_self, at_other, IfOk,
  IfOk-bind, IfOk_ok, mod_cases, dec_lt, has, insert, erase, length, length-insert, has-erase,
  ℕ_discrete as dec_eq,
}
use rio_iocp_server.RioSession.Defs.{RioSession, World}
use rio_iocp_server.RioSession.Connection.{process_connect}
use rio_iocp_server.RioCore.{
  RioCore, add_session, release_session, returned, releases, lock_sessions,
}
use rio_iocp_server.RioServer.{RioServer, accept}

abbrev pub session_num : RioServer → ℕ → ℕ
session_num s i = length (s.cores i).sessions

-- A number of sessions was accepted. Each is new to the cores, and is in one of them when `Accept` is done:
-- it could be set up, and its first receive be posted.
pub data Accepts (worlds : ℕ → World) (start : RioServer) : RioServer → Type 0 where
  nobody : Accepts worlds start start
  one_more :
      {s : RioServer} (h k : ℕ) (session : RioSession) (s' : RioServer)
      → Accepts worlds start s
      → ((i : ℕ) → has h (s.cores i).sessions ≡ false)
      → accept worlds h (some session) s ≡ ok (true, s')
      → has h (s'.cores k).sessions ≡ true
      → Accepts worlds start s'

-- The turn goes to the next core, and only the core whose turn it was changes: it has session `h`,
-- unless the session released itself.
record Passed (h : ℕ) (s s' : RioServer) : Type 0 where
  below : s.curr_alloc_core_num < s.core_cnt
  cnt : s'.core_cnt ≡ s.core_cnt
  turn : s'.curr_alloc_core_num ≡ (s.curr_alloc_core_num + 1) % s.core_cnt
  changed : (k : ℕ) → k ≢ s.curr_alloc_core_num → s'.cores k ≡ s.cores k
  added :
      let old = (s.cores s.curr_alloc_core_num).sessions in
      let new = (s'.cores s.curr_alloc_core_num).sessions in
      (new ≡ insert h old) ⊎ (new ≡ erase h (insert h old))

locked :
    (Q : RioCore → Type 0) (c : RioCore) (f : RioCore → RioCore)
    → Q (f (record c { session_lock = true }))
    → IfOk Q (lock_sessions c >>= λ l. ok (f l))
locked Q c f q =
    if_lem (λ o. IfOk Q (o >>= λ l. ok (f l))) c.session_lock ub
      (ok (record c { session_lock = true })) (λ e. tt) (λ e. q)

add_session-sessions :
    (h : ℕ) (c : RioCore)
    → IfOk (λ (c' : RioCore). c'.sessions ≡ insert h c.sessions) (add_session h c)
unfolding add_session
add_session-sessions h c = locked (λ (c' : RioCore). c'.sessions ≡ insert h c.sessions) c _ refl

returned-sessions :
    (h : ℕ) (t : RioSession) (c : RioCore)
    → IfOk
        (λ (c' : RioCore). (c'.sessions ≡ c.sessions) ⊎ (c'.sessions ≡ erase h c.sessions))
        (returned h t c)
unfolding returned release_session
returned-sessions h t c =
    let Q = λ (c' : RioCore). (c'.sessions ≡ c.sessions) ⊎ (c'.sessions ≡ erase h c.sessions) in
    if_lem (IfOk Q) (releases (c.objects h).log t.log) _ _ (λ e. locked Q _ _ (inr refl))
      (λ e. inl refl)

accept-Passed :
    (worlds : ℕ → World) (h : ℕ) (session : RioSession) (s : RioServer)
    → IfOk (λ r. Passed h s r.1) (accept worlds h (some session) s)
unfolding accept
accept-Passed worlds h session s =
    let c : ℕ = s.curr_alloc_core_num in
    let P = λ (r : Bool × RioServer). Passed h s r.1 in
    if_lem (IfOk P) (leb s.core_cnt c) ub _ (λ e. tt)
      (λ e.
        IfOk-bind (λ (a : RioCore). a.sessions ≡ insert h (s.cores c).sessions) P (add_session h _)
          _ (add_session-sessions h _)
          (λ core is_in.
            IfOk-bind
              (λ (a : RioCore). (a.sessions ≡ core.sessions) ⊎ (a.sessions ≡ erase h core.sessions))
              P (returned h (process_connect (worlds h) session) core) _
              (returned-sessions h (process_connect (worlds h) session) core)
              (λ core' ends. record {
                below = leb→gt s.core_cnt c e;
                cnt = refl;
                turn = refl;
                changed = λ k n. at_other c core' s.cores k n;
                added =
                    subst
                      (λ (a : RioCore).
                        (a.sessions ≡ insert h (s.cores c).sessions)
                        ⊎ (a.sessions ≡ erase h (insert h (s.cores c).sessions)))
                      (sym (at_self c core' s.cores))
                      (elim ends [
                        | inl kept ↦ inl (kept ∙ is_in)
                        | inr gone ↦ inr (gone ∙ ap (erase h) is_in)
                      ]);
              })))

-- A session that is new, and in a core afterwards: the core whose turn it was has one more.
Passed-num :
    (h k : ℕ) (s s' : RioServer)
    → Passed h s s'
    → ((i : ℕ) → has h (s.cores i).sessions ≡ false)
    → has h (s'.cores k).sessions ≡ true
    → (i : ℕ)
    → session_num s' i
      ≡ at s.curr_alloc_core_num (session_num s s.curr_alloc_core_num + 1) (session_num s) i
Passed-num h k s s' p new there i =
    at_lem (λ n. session_num s' i ≡ n) c _ (session_num s) i
      (λ same. ap (session_num s') same ∙ grown)
      (λ other. ap (λ (a : RioCore). length a.sessions) (p.changed i other))
  where
    c : ℕ
    c = s.curr_alloc_core_num

    is_in : has h (s'.cores c).sessions ≡ true
    is_in = elim (dec_eq k c) [
      | yes same ↦ subst (λ j. has h (s'.cores j).sessions ≡ true) same there
      | no other ↦ absurd (
          ground
            (arith, sym there ∙ ap (λ (a : RioCore). has h a.sessions) (p.changed k other) ∙ new k))
    ]

    grown : session_num s' c ≡ session_num s c + 1
    grown = elim (p.added) [
      | inl e ↦ ap length e ∙ length-insert h (s.cores c).sessions (new c) ∙ omega arith
      | inr e ↦
          absurd (
            ground (arith, has-erase h h (insert h (s.cores c).sessions), sym is_in ∙ ap (has h) e))
    ]

-- The cores before the one whose turn it is have one session more than the others.
record InTurn (start s : RioServer) : Type 0 where
  rounds : ℕ
  same_cnt : s.core_cnt ≡ start.core_cnt
  in_range : s.curr_alloc_core_num < start.core_cnt
  ahead : (i : ℕ) → i < s.curr_alloc_core_num → session_num s i ≡ rounds + 1
  behind : (i : ℕ) → s.curr_alloc_core_num ≤ i → i < start.core_cnt → session_num s i ≡ rounds

next-InTurn :
    (h : ℕ) (start s s' : RioServer)
    → InTurn start s
    → Passed h s s'
    → ((i : ℕ)
        → session_num s' i
          ≡ at s.curr_alloc_core_num (session_num s s.curr_alloc_core_num + 1) (session_num s) i)
    → InTurn start s'
next-InTurn h start s s' t p num = elim (mod_cases (c + 1) s.core_cnt (omega (arith, p.below))) [
  | inl (more, e) ↦ record {
    rounds = t.rounds;
    same_cnt = p.cnt ∙ t.same_cnt;
    in_range = omega (arith, p.turn, e, more, t.same_cnt);
    ahead = λ i l.
        num i
        ∙ at_lem (λ n. n ≡ t.rounds + 1) c (session_num s c + 1) (session_num s) i
            (λ same. ap (λ n. n + 1) (t.behind c (omega arith) t.in_range))
            (λ differs. t.ahead i (omega (arith, l, p.turn, e, differs)));
    behind = λ i l k.
        num i
        ∙ at_lem (λ n. n ≡ t.rounds) c (session_num s c + 1) (session_num s) i
            (λ same. absurd (omega (arith, same, l, p.turn, e)))
            (λ differs. t.behind i (omega (arith, l, p.turn, e)) k);
  }
  | inr (last, e) ↦ record {
    rounds = t.rounds + 1;
    same_cnt = p.cnt ∙ t.same_cnt;
    in_range = omega (arith, p.turn, e, last, p.below, t.same_cnt);
    ahead = λ i l. absurd (omega (arith, l, p.turn, e, last, p.below));
    behind = λ i l k.
        num i
        ∙ at_lem (λ n. n ≡ t.rounds + 1) c (session_num s c + 1) (session_num s) i
            (λ same. ap (λ n. n + 1) (t.behind c (omega arith) t.in_range))
            (λ differs. t.ahead i (omega (arith, k, last, p.below, t.same_cnt, differs)));
  }
]
  where
    c : ℕ
    c = s.curr_alloc_core_num

Accepts-InTurn :
    (worlds : ℕ → World) (start s : RioServer)
    → start.curr_alloc_core_num ≡ 0
    → 0 < start.core_cnt
    → ((i : ℕ) → (start.cores i).sessions ≡ [])
    → Accepts worlds start s
    → InTurn start s
Accepts-InTurn worlds start _ first some_cores empty nobody = record {
  rounds = 0;
  same_cnt = refl;
  in_range = omega (arith, first, some_cores);
  ahead = λ i h. absurd (omega (arith, h, first));
  behind = λ i h k. ap length (empty i);
}
Accepts-InTurn worlds start _ first some_cores empty
      (one_more {s} h k session s' before new runs there) =
    let p =
      IfOk_ok (λ (r : Bool × RioServer). Passed h s r.1) (accept worlds h (some session) s)
        (true, s') (accept-Passed worlds h session s) runs in
    next-InTurn h start s s' (Accepts-InTurn worlds start s first some_cores empty before) p
      (Passed-num h k s s' p new there)

-- From a server without sessions whose first turn is that of core 0, after any number of new sessions
-- are accepted, could be set up and stay: of any two cores, none has in its set more than one session
-- more than the other, and the next turn is that of a core that there is.
pub accept-in_turn :
    (worlds : ℕ → World) (start s : RioServer) (i j : ℕ)
    → start.curr_alloc_core_num ≡ 0
    → ((k : ℕ) → (start.cores k).sessions ≡ [])
    → Accepts worlds start s
    → i < start.core_cnt
    → j < start.core_cnt
    → (session_num s i ≤ session_num s j + 1) × (s.curr_alloc_core_num < s.core_cnt)
accept-in_turn worlds start s i j first empty runs hi hj =
    (omega (arith, counts i hi, counts j hj), omega (arith, t.in_range, t.same_cnt))
  where
    t : InTurn start s
    t = Accepts-InTurn worlds start s first (omega (arith, hi)) empty runs

    counts :
        (k : ℕ)
        → k < start.core_cnt
        → (session_num s k ≡ t.rounds) ⊎ (session_num s k ≡ t.rounds + 1)
    counts k h = elim (dec_lt k s.curr_alloc_core_num) [
      | yes l ↦ inr (t.ahead k l)
      | no n ↦ inl (t.behind k (omega (arith, n)) h)
    ]
