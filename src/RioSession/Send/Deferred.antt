-- ===== src/RioSession/Send/Deferred.antt =====
-- `SendDeferred` of RioSession.cpp: the loop over the send queue, and the whole.
use rio_iocp_server.Prelude.{
  ℕ, zero, suc, ◌-◌, ◌<◌, ◌≡◌, refl, sym, ap, ◌∙◌, Bool, true, false, List, [], ◌∷◌, ◌++◌,
  if◌then◌else◌, Outcome, ok, ◌>>=◌, ltb, leb, ◌==◌, ◌||◌, ◌&&◌, not, length, flatten, arith,
  append_assoc, if_lem, inl, inr, take, take-length, subst, length-append,
}
use rio_iocp_server.RingBuffer.{RingBuffer}
use rio_iocp_server.RioBuffer.{get_send_data_size}
use rio_iocp_server.RioBuffer.Unsent.{unsent, write_buffer-IsSending}
use rio_iocp_server.RioSession.Defs.{RioSession, World, commit, queued_bytes, logged}
use rio_iocp_server.RioSession.Connection.{fail}
use rio_iocp_server.RioSession.Connection.Kept.{fail_Kept}
use rio_iocp_server.RioSession.Send.{
  send_limit, max_post_cnt, commit_time, send_commit, drain, drain_some, take_queue, finish_send,
  send_deferred,
}
use rio_iocp_server.RioSession.Send.Order.{
  KeepsSending, SameSending, sending_Kept, to_send, IsPending, same_IsPending,
}
use rio_iocp_server.RioSession.Send.Loops.{Ended, drain_lem, drain_some_lem}

-- `m_sendCnt` does not count.
counted_SameSending :
    (s s' : RioSession) (n : ℕ) → SameSending s s' → SameSending s (record s' { send_cnt = n })
counted_SameSending s s' n same = record {
  same_buffer = same.same_buffer;
  same_queue = same.same_queue;
  same_queued = same.same_queued;
}

-- A predicate of a session whose send queue is known.
with_queue :
    (P : RioSession → Type 0) (s : RioSession) (queue : List (List ℕ))
    → s.send_queue ≡ queue
    → P (record s { send_queue = queue })
    → P s
with_queue P s queue e p = subst (λ q. P (record s { send_queue = q })) (sym e) p

module _ (world : World) (keeps : KeepsSending world) where
  -- A loop over the send queue ended, in a session that is still to send the same bytes.
  unfoldable Taken : List ℕ → ℕ → ℕ → Outcome (ℕ × RioSession) → Type 0
  Taken bytes completed capacity run =
      (count : ℕ) × (s' : RioSession) × (sent : ℕ) × (run ≡ ok (count, s'))
      × IsPending bytes completed s' sent
      × (s'.send_buffer.ring.capacity ≡ capacity)

  drained_lem :
      (fuel count : ℕ) (bytes : List ℕ) (completed : ℕ) (capacity : ℕ) (s : RioSession) (sent : ℕ)
      (next : ℕ → RioSession → Outcome (ℕ × RioSession))
      → IsPending bytes completed s sent
      → s.send_buffer.ring.capacity ≡ capacity
      → capacity < fuel
      → ((count' : ℕ) (s' : RioSession) (sent' : ℕ)
          → IsPending bytes completed s' sent'
          → s'.send_buffer.ring.capacity ≡ capacity
          → s'.send_queue ≡ s.send_queue
          → Taken bytes completed capacity (next count' s'))
      → Taken bytes completed capacity (
          drain world fuel count s >>= λ (count', s').
          if leb max_post_cnt count' then ok (count', s') else next count' s')
  unfolding Taken Ended
  drained_lem fuel count bytes completed capacity s sent next p same f goes_on =
      let (count', s', sent', runs, p', memory, queue) =
        drain_lem world keeps fuel count bytes completed s sent p
          (omega (arith, p.sending.valid, same)) in
      let same' : s'.send_buffer.ring.capacity ≡ capacity = ap (λ r. r.capacity) memory ∙ same in
      rw (runs) (
        if_lem (Taken bytes completed capacity) (leb max_post_cnt count') _ _
          (λ full. (count', s', sent', refl, p', same'))
          (λ more. goes_on count' s' sent' p' same' queue))

  queue_moved :
      (bytes : List ℕ) (s : RioSession) (net_buffer : List ℕ) (queue : List (List ℕ)) (sent : ℕ)
      (ring : RingBuffer)
      → unsent (record (s.send_buffer) { ring = ring }) sent
        ≡ unsent s.send_buffer sent ++ take (length net_buffer) net_buffer
      → to_send (record s { send_queue = net_buffer ∷ queue }) sent ≡ bytes
      → to_send
          (record s { send_buffer = record (s.send_buffer) { ring = ring }; send_queue = queue })
          sent
        ≡ bytes
  unfolding flatten
  queue_moved bytes s net_buffer queue sent ring appended all_bytes =
      ap (λ l. queued_bytes s.log ++ (l ++ flatten queue))
        (appended
          ∙ ap (λ l. unsent s.send_buffer sent ++ l)
              (take-length (length net_buffer) net_buffer (omega arith)))
      ∙ ap (λ l. queued_bytes s.log ++ l)
          (append_assoc (unsent s.send_buffer sent) net_buffer (flatten queue))
      ∙ all_bytes

  take_queue_lem :
      (fuel rounds count : ℕ) (bytes : List ℕ) (completed : ℕ) (capacity : ℕ) (s : RioSession)
      (sent : ℕ) (queue : List (List ℕ))
      → IsPending bytes completed (record s { send_queue = queue }) sent
      → s.send_buffer.ring.capacity ≡ capacity
      → capacity < fuel
      → length (flatten queue) < fuel
      → length queue < rounds
      → Taken bytes completed capacity
          (take_queue world fuel rounds count (record s { send_queue = queue }))
  unfolding take_queue Taken flatten
  take_queue_lem fuel zero count bytes completed capacity s sent queue p same f g r =
      absurd (omega (arith, r))
  take_queue_lem fuel (suc rounds) count bytes completed capacity s sent [] p same f g r =
      (count, record s { send_queue = [] }, sent, refl, p, same)
  take_queue_lem fuel (suc rounds) count bytes completed capacity s sent (net_buffer ∷ queue) p same
        f g r =
      elim (write_buffer-IsSending fuel s.send_buffer sent net_buffer (length net_buffer) p.sending
        (omega arith) (omega (arith, g, length-append net_buffer (flatten queue)))) [
          | inl refused ↦
              rw (refused)
                (count, record s { send_queue = net_buffer ∷ queue }, sent, refl, p, same)
          | inr (ring, runs, sending, appended, kept) ↦
              let s1 = record s {
                send_buffer = record (s.send_buffer) { ring = ring };
                send_queue = queue;
              } in
              let p1 : IsPending bytes completed s1 sent = record {
                sending = sending;
                all_bytes = queue_moved bytes s net_buffer queue sent ring appended p.all_bytes;
                balance = p.balance;
              } in
              let g1 : length (flatten queue) < fuel =
                omega (arith, g, length-append net_buffer (flatten queue)) in
              rw (runs) (
                if_lem (Taken bytes completed capacity)
                  (ltb (get_send_data_size s1.send_buffer) send_limit) _ _
                  (λ few.
                    take_queue_lem fuel rounds count bytes completed capacity s1 sent queue p1
                      (kept ∙ same) f g1 (omega (arith, r)))
                  (λ many.
                    drained_lem fuel count bytes completed capacity s1 sent
                      (take_queue world fuel rounds) p1 (kept ∙ same) f
                      (λ count' s2 sent' p2 same' left.
                        with_queue
                          (λ s'.
                            Taken bytes completed capacity (take_queue world fuel rounds count' s'))
                          s2 queue left
                          (take_queue_lem fuel rounds count' bytes completed capacity s2 sent' queue
                            (subst
                              (λ q. IsPending bytes completed (record s2 { send_queue = q }) sent')
                              left p2)
                            same' f g1 (omega (arith, r))))))
        ]

  send_commit-SameSending : (s : RioSession) → SameSending s (send_commit world s)
  unfolding send_commit
  send_commit-SameSending s =
      let kept = sending_Kept world keeps in
      let committed = kept.quiet commit s tt in
      if_lem (SameSending s) (s.send_cnt == 0) _ _ (λ none. kept.self s)
        (λ some.
          if_lem (SameSending s) (world.rio_commit s) _ _
            (λ done. counted_SameSending s (logged commit s) 0 committed)
            (λ refused. counted_SameSending s (fail world (logged commit s)) 0 (
              kept.trans s (logged commit s) _ committed
                (fail_Kept world SameSending kept (logged commit s)))))

  finish_send-SameSending : (count : ℕ) (s : RioSession) → SameSending s (finish_send world count s)
  unfolding finish_send
  finish_send-SameSending count s =
      let timed = record s { last_send_time = world.now s } in
      let same : SameSending s timed = record {
        same_buffer = refl;
        same_queue = refl;
        same_queued = refl;
      } in
      if_lem (SameSending s) (ltb 0 count) _ _
        (λ some. (sending_Kept world keeps).trans s timed _ same (send_commit-SameSending timed))
        (λ none. same)

  unfoldable Finished : List ℕ → ℕ → Outcome (Bool × RioSession) → Type 0
  Finished bytes completed run =
      (b : Bool) × (s' : RioSession) × (sent : ℕ) × (run ≡ ok (b, s'))
      × IsPending bytes completed s' sent

  finished :
      (bytes : List ℕ) (completed : ℕ) (count : ℕ) (s : RioSession) (sent : ℕ)
      → IsPending bytes completed s sent
      → Finished bytes completed (ok (true, finish_send world count s))
  unfolding Finished
  finished bytes completed count s sent p = (
    true,
    finish_send world count s,
    sent,
    refl,
    same_IsPending bytes completed s _ sent (finish_send-SameSending count s) p,
  )

  -- When the virtual methods leave the send path alone, in a session that sends, with more rounds than
  -- the send buffer, the send queue and the bytes of the send queue are long: `SendDeferred` returns,
  -- the session still sends, and the bytes of the queued requests, those in the buffer that are not
  -- handed over and those of the send queue are, one behind the other, the same as before, whatever
  -- the answers of `RIOSend`, of the commit and of the clock are.
  pub send_deferred_lem :
      (fuel : ℕ) (bytes : List ℕ) (completed : ℕ) (s : RioSession) (sent : ℕ)
      → IsPending bytes completed s sent
      → s.send_buffer.ring.capacity < fuel
      → length s.send_queue < fuel
      → length (flatten s.send_queue) < fuel
      → (result : Bool) × (s' : RioSession) × (sent' : ℕ) × (send_deferred world fuel s
          ≡ ok (result, s'))
        × IsPending bytes completed s' sent'
  unfolding send_deferred Finished Taken Ended
  send_deferred_lem fuel bytes completed s sent start f g h = finishes
    where
      work : Taken bytes completed s.send_buffer.ring.capacity (take_queue world fuel fuel 0 s)
      work =
          take_queue_lem fuel fuel 0 bytes completed s.send_buffer.ring.capacity s sent s.send_queue
            start refl f h g

      worked : Finished bytes completed (
          take_queue world fuel fuel 0 s >>= λ (count, s').
          if ltb count max_post_cnt
          then (drain_some world fuel count s' >>= λ (count', s'').
              ok (true, finish_send world count' s''))
          else ok (true, finish_send world count s'))
      worked =
          let (count, s1, sent1, runs, p1, same) = work in
          let (count', s2, sent2, runs', p2, _, _) =
            drain_some_lem world keeps fuel count bytes completed s1 sent1 p1
              (omega (arith, p1.sending.valid, same, f)) in
          rw (runs) (
            if_lem (Finished bytes completed) (ltb count max_post_cnt) _ _
              (λ few. rw (runs') (finished bytes completed count' s2 sent2 p2))
              (λ many. finished bytes completed count s1 sent1 p1))

      finishes : Finished bytes completed (send_deferred world fuel s)
      finishes =
          if_lem (Finished bytes completed) (not s.is_connected || not s.is_allocated) _ _
            (λ down. (false, s, sent, refl, start))
            (λ up.
              if_lem (Finished bytes completed)
                (not (s.last_send_time == 0) && leb (world.now s - s.last_send_time) commit_time) _
                _ (λ early. (false, s, sent, refl, start)) (λ late. worked))
