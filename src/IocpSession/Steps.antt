-- ===== src/IocpSession/Steps.antt =====
-- The steps on the send path of IocpSession.cpp, one by one.
use rio_iocp_server.Prelude.{
  ℕ, suc, ◌+◌, ◌≤◌, ◌≡◌, refl, sym, ap, ◌∙◌, Bool, true, false, List, [], ◌∷◌, ◌++◌, if◌then◌else◌,
  not, ◌==◌, append-nil, append_assoc, arith, if_lem,
}
use rio_iocp_server.IocpSession.{
  IocpSession, IocpWorld, Call, wsa_send, disconnect_ex, error, logged, enqueue, gather, post,
  disconnect, register_disconnect,
}
use rio_iocp_server.IocpSession.Threads.{Threads, Exclusive, count, offered}

pub offered-append : (log log' : List Call) → offered (log ++ log') ≡ offered log ++ offered log'
unfolding offered
offered-append [] log' = refl
offered-append (wsa_send buffers started ∷ log) log' =
    ap (λ l. buffers ++ l) (offered-append log log')
    ∙ sym (append_assoc buffers (offered log) (offered log'))
offered-append (Call.error ∷ log) log' = offered-append log log'
offered-append (_ ∷ log) log' = offered-append log log'

-- Nothing changed on the send path but, maybe, the event.
pub record Same (s s' : IocpSession) : Type 0 where
  pub queue : s'.send_buffer_queue ≡ s.send_buffer_queue
  pub registered : s'.send_registered ≡ s.send_registered
  pub offers : offered s'.log ≡ offered s.log
  pub event : s'.send_event ≡ s.send_event

pub Same-trans : (s t u : IocpSession) → Same s t → Same t u → Same s u
Same-trans s t u p q = record {
  queue = q.queue ∙ p.queue;
  registered = q.registered ∙ p.registered;
  offers = q.offers ∙ p.offers;
  event = q.event ∙ p.event;
}

pub logged-Same : (c : Call) (s : IocpSession) → offered (c ∷ []) ≡ [] → Same s (logged c s)
logged-Same c s none = record {
  queue = refl;
  registered = refl;
  offers =
      offered-append s.log (c ∷ [])
      ∙ ap (λ l. offered s.log ++ l) none
      ∙ append-nil (offered s.log);
  event = refl;
}

pub disconnect-Same : (world : IocpWorld) (s : IocpSession) → Same s (disconnect world s)
unfolding disconnect register_disconnect offered
disconnect-Same world s =
    let s' = record s { is_connected = false } in
    let called = logged-Same disconnect_ex s' refl in
    let down : Same s (logged disconnect_ex s') = record {
      queue = refl;
      registered = refl;
      offers = called.offers;
      event = refl;
    } in
    if_lem (Same s) (not s.is_connected) _ _
      (λ h. record { queue = refl; registered = refl; offers = refl; event = refl })
      (λ h.
        if_lem (Same s) (world.starts_disconnect s') _ _ (λ starts. down)
          (λ fails.
            Same-trans s (logged disconnect_ex s') _ down
              (logged-Same error (logged disconnect_ex s') refl)))

shift : (a b c d : List (List ℕ)) → a ++ (b ++ (c ++ d)) ≡ (a ++ (b ++ c)) ++ d
shift a b c d = simp (append_assoc)

counted : (b : Bool) (n : ℕ) → (b ≡ false → n ≡ 0) → n ≤ 1 → count (not b) + n ≤ 1
counted true n h l = omega (arith, l)
counted false n h l = omega (arith, h refl)

pub not_false : ¬ (true ≡ false)
not_false h = ground arith

pub sends_lem :
    (net_buffer : List ℕ) (buffers : List (List ℕ)) (t : Threads)
    → Exclusive buffers t
    → Exclusive (buffers ++ net_buffer ∷ []) (record t {
      session = (enqueue net_buffer t.session).1;
      registering = t.registering + count (enqueue net_buffer t.session).0;
    })
unfolding enqueue
sends_lem net_buffer buffers t e = record {
  one = omega (
    arith,
    counted t.session.send_registered (t.registering + t.posting + t.pending) e.free e.one,
  );
  free = λ h. absurd (not_false h);
  clean = e.clean;
  order =
      shift (offered t.session.log) (if t.posting == 0 then [] else t.session.send_event)
        t.session.send_buffer_queue (net_buffer ∷ [])
      ∙ ap (λ l. l ++ net_buffer ∷ []) e.order;
}

-- What stands in the order, by the number of threads that post.
abbrev pub ordered : IocpSession → ℕ → List (List ℕ)
ordered s n = offered s.log ++ ((if n == 0 then [] else s.send_event) ++ s.send_buffer_queue)

pub gathers_lem :
    (buffers : List (List ℕ)) (t : Threads) (k : ℕ)
    → t.registering ≡ suc k
    → Exclusive buffers t
    → Exclusive buffers (record t {
      session = (gather t.session).1;
      registering = k;
      posting = t.posting + count (gather t.session).0;
    })
unfolding gather
gathers_lem buffers t k is_one e =
    if_lem
      (λ (r : Bool × IocpSession).
        Exclusive buffers
          (record t { session = r.1; registering = k; posting = t.posting + count r.0 }))
      (not t.session.is_connected) _ _
      (λ down. record {
        one = omega (arith, e.one, is_one);
        free = λ h. omega (arith, e.free h, is_one);
        clean = λ h. e.clean (omega (arith, h));
        order = ap (ordered t.session) (omega arith) ∙ e.order;
      })
      (λ up. record {
        one = omega (arith, e.one, is_one);
        free = λ h. absurd (omega (arith, e.free h, is_one));
        clean = λ h. absurd (omega (arith, h));
        order =
            ap (ordered gathered) none_posts
            ∙ ap (λ l. offered t.session.log ++ l)
                (append-nil (t.session.send_event ++ t.session.send_buffer_queue)
                  ∙ ap (λ l. l ++ t.session.send_buffer_queue)
                      (e.clean (omega (arith, e.one, is_one))))
            ∙ sym (ap (ordered t.session) none_post)
            ∙ e.order;
      })
  where
    gathered : IocpSession
    gathered = record (t.session) {
      send_event = t.session.send_event ++ t.session.send_buffer_queue;
      send_buffer_queue = [];
    }

    none_post : t.posting ≡ 0
    none_post = omega (arith, e.one, is_one)

    none_posts : t.posting + 1 ≡ 1
    none_posts = omega (arith, e.one, is_one)

pub posts_lem :
    (world : IocpWorld) (buffers : List (List ℕ)) (t : Threads) (k : ℕ)
    → t.posting ≡ suc k
    → Exclusive buffers t
    → Exclusive buffers (record t {
      session = post world t.session;
      posting = k;
      pending = t.pending + count (world.starts_send t.session);
    })
unfolding post offered
posts_lem world buffers t k is_one e = go (world.starts_send t.session)
  where
    posting_one : t.posting ≡ 1
    posting_one = omega (arith, e.one, is_one)

    none_left : k ≡ 0
    none_left = omega (arith, e.one, is_one)

    posted : Bool → IocpSession
    posted b = logged (wsa_send t.session.send_event b) t.session

    order :
        (b : Bool)
        → offered (t.session.log ++ wsa_send t.session.send_event b ∷ [])
            ++ t.session.send_buffer_queue
          ≡ buffers
    order b =
        ap (λ l. l ++ t.session.send_buffer_queue)
          (offered-append t.session.log (wsa_send t.session.send_event b ∷ [])
            ∙ ap (λ l. offered t.session.log ++ l) (append-nil t.session.send_event))
        ∙ append_assoc (offered t.session.log) t.session.send_event t.session.send_buffer_queue
        ∙ sym (ap (ordered t.session) posting_one)
        ∙ e.order

    go :
        (b : Bool)
        → Exclusive buffers (record t {
          session =
              if b
              then posted b
              else logged error (record (posted b) { send_event = []; send_registered = false });
          posting = k;
          pending = t.pending + count b;
        })
    go true = record {
      one = omega (arith, e.one, is_one);
      free = λ h. absurd (omega (arith, e.free h, is_one));
      clean = λ h. absurd (omega (arith, h));
      order = ap (ordered (posted true)) none_left ∙ order true;
    }
    go false = record {
      one = omega (arith, e.one, is_one);
      free = λ h. omega (arith, e.one, is_one);
      clean = λ h. refl;
      order =
          ap
            (ordered
              (logged error (record (posted false) { send_event = []; send_registered = false })))
            none_left
          ∙ ap (λ l. l ++ t.session.send_buffer_queue)
              (offered-append (posted false).log (error ∷ [])
                ∙ append-nil (offered (posted false).log))
          ∙ order false;
    }

pub goes_down_lem :
    (world : IocpWorld) (buffers : List (List ℕ)) (t : Threads)
    → Exclusive buffers t
    → Exclusive buffers (record t { session = disconnect world t.session })
goes_down_lem world buffers t e =
    let same = disconnect-Same world t.session in
    record {
      one = e.one;
      free = λ h. e.free (sym same.registered ∙ h);
      clean = λ h. same.event ∙ e.clean h;
      order = rw (same.offers, same.event, same.queue) e.order;
    }
