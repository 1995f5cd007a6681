-- ===== src/IocpSession/Completion.antt =====
-- `ProcessSend` of IocpSession.cpp, as a step on the send path.
use rio_iocp_server.Prelude.{
  ℕ, suc, ◌+◌, ◌≤◌, ◌≡◌, refl, sym, ap, ap₂, ◌∙◌, Bool, true, false, List, [], ◌∷◌, ◌++◌, ◌==◌,
  arith, if_lem,
}
use rio_iocp_server.IocpSession.{
  IocpSession, IocpWorld, error, sent_done, logged, check_queue, complete, fail,
}
use rio_iocp_server.IocpSession.Threads.{Threads, KeepsSends, Exclusive, count, offered}
use rio_iocp_server.IocpSession.Steps.{Same-trans, logged-Same, disconnect-Same, not_false, ordered}

-- What `ProcessSend` leaves when it looks at the queue.
unfoldable Checked : IocpSession → Bool × IocpSession → Type 0
Checked s (again, s') =
    (s'.send_buffer_queue ≡ s.send_buffer_queue)
    × (s'.send_event ≡ s.send_event)
    × (offered s'.log ≡ offered s.log)
    × (s.send_registered ≡ true → s'.send_registered ≡ false → again ≡ false)

check_queue-Checked : (s : IocpSession) → Checked s (check_queue s)
unfolding Checked check_queue
check_queue-Checked s = go s.send_buffer_queue
  where
    go :
        (queue : List (List ℕ))
        → Checked
            (record s { send_buffer_queue = queue })
            (check_queue (record s { send_buffer_queue = queue }))
    go [] = (refl, refl, refl, λ up down. refl)
    go (x ∷ queue) = (refl, refl, refl, λ up down. absurd (not_false (sym up ∙ down)))

complete-Checked :
    (world : IocpWorld)
    → KeepsSends world
    → (n : ℕ) (s : IocpSession) → Checked (record s { send_event = [] }) (complete world n s)
unfolding Checked complete offered fail
complete-Checked world keeps n s =
    let cleared = record s { send_event = [] } in
    let called = logged (sent_done n) cleared in
    let logs = logged-Same (sent_done n) cleared refl in
    let checked = check_queue-Checked (world.on_call (sent_done n) called) in
    let failed =
      Same-trans cleared (logged error cleared) _ (logged-Same error cleared refl)
        (disconnect-Same world (logged error cleared)) in
    if_lem (Checked cleared) (n == 0) _ _
      (λ none. (failed.queue, failed.event, failed.offers, λ up down. refl))
      (λ some. (
        checked.0 ∙ keeps.keeps_queue (sent_done n) called,
        checked.1 ∙ keeps.keeps_event (sent_done n) called,
        checked.2 ∙ keeps.keeps_offered (sent_done n) called ∙ logs.offers,
        λ up down. checked.3 (keeps.keeps_registered (sent_done n) called ∙ up) down,
      ))

pub completes_lem :
    (world : IocpWorld)
    → KeepsSends world
    → (buffers : List (List ℕ)) (t : Threads) (n k : ℕ) → t.pending ≡ suc k
    → Exclusive buffers t
    → Exclusive buffers (record t {
      session = (complete world n t.session).1;
      registering = t.registering + count (complete world n t.session).0;
      pending = k;
    })
unfolding Checked
completes_lem world keeps buffers t n k is_one e =
    let (queue, event, offers, answer) = complete-Checked world keeps n t.session in
    let no_post : t.posting ≡ 0 = omega (arith, e.one, is_one) in
    record {
      one = omega (arith, e.one, is_one, count_le (complete world n t.session).0);
      free = λ h.
          omega
            (arith, e.one, is_one, ap count (answer (registered t.session.send_registered refl) h));
      clean = λ h. event;
      order =
          ap (ordered (complete world n t.session).1) no_post
          ∙ ap₂ ◌++◌ offers queue
          ∙ sym (ap (ordered t.session) no_post)
          ∙ e.order;
    }
  where
    registered : (b : Bool) → t.session.send_registered ≡ b → t.session.send_registered ≡ true
    registered true h = h
    registered false h = absurd (omega (arith, e.free h, is_one))

    count_le : (b : Bool) → count b ≤ 1
    count_le true = omega arith
    count_le false = omega arith
