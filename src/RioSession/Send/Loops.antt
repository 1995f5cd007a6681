-- ===== src/RioSession/Send/Loops.antt =====
-- The inner loops of `SendDeferred` of RioSession.cpp.
use rio_iocp_server.Prelude.{
  ℕ, zero, suc, ◌+◌, ◌-◌, ◌<◌, ◌≡◌, refl, ◌∙◌, true, List, Outcome, ok, ltb, leb, arith, if_lem,
  ltb→lt,
}
use rio_iocp_server.RioBuffer.{get_send_data_size}
use rio_iocp_server.RioBuffer.Unsent.{get_send_data_size_lem}
use rio_iocp_server.RioSession.Defs.{RioSession, World}
use rio_iocp_server.RioSession.Send.{max_post_cnt, send_chunk, drain, drain_some}
use rio_iocp_server.RioSession.Send.Order.{KeepsSending, IsPending, Requested, send_chunk-Requested}

-- A loop ended, in a session that is still to send the same bytes, from the same memory.
unfoldable pub Ended : List ℕ → ℕ → RioSession → Outcome (ℕ × RioSession) → Type 0
Ended bytes completed s run =
    (count : ℕ) × (s' : RioSession) × (sent : ℕ) × (run ≡ ok (count, s'))
    × IsPending bytes completed s' sent
    × (s'.send_buffer.ring ≡ s.send_buffer.ring)
    × (s'.send_queue ≡ s.send_queue)

Ended-trans :
    (bytes : List ℕ) (completed : ℕ) (s s' : RioSession) (run : Outcome (ℕ × RioSession))
    → s'.send_buffer.ring ≡ s.send_buffer.ring
    → s'.send_queue ≡ s.send_queue
    → Ended bytes completed s' run
    → Ended bytes completed s run
unfolding Ended
Ended-trans bytes completed s s' run memory queue (count, s'', sent, runs, p, memory', queue') =
    (count, s'', sent, runs, p, memory' ∙ memory, queue' ∙ queue)

module _ (world : World) (keeps : KeepsSending world) where
  -- The loop ends after a request.
  Ended-here :
      (count : ℕ) (bytes : List ℕ) (completed : ℕ) (s : RioSession) (sent : ℕ)
      → IsPending bytes completed s sent
      → Ended bytes completed s (ok (count, (send_chunk world s).1))
  unfolding Requested Ended
  Ended-here count bytes completed s sent p =
      let (sent', p', memory, queue, _) =
        send_chunk-Requested world keeps bytes completed s sent p in
      (count, (send_chunk world s).1, sent', refl, p', memory, queue)

  -- A request that is queued leaves fewer bytes.
  gone_on :
      (fuel : ℕ) (bytes : List ℕ) (completed : ℕ) (s : RioSession) (sent : ℕ)
      (run : Outcome (ℕ × RioSession))
      → IsPending bytes completed s sent
      → s.send_buffer.ring.size - sent < suc fuel
      → ltb 0 (get_send_data_size s.send_buffer) ≡ true
      → (send_chunk world s).0 ≡ true
      → ((sent' : ℕ)
          → IsPending bytes completed (send_chunk world s).1 sent'
          → (send_chunk world s).1.send_buffer.ring.size - sent' < fuel
          → Ended bytes completed (send_chunk world s).1 run)
      → Ended bytes completed s run
  unfolding Requested
  gone_on fuel bytes completed s sent run p f some went next =
      let (sent', p', memory, queue, further) =
        send_chunk-Requested world keeps bytes completed s sent p in
      Ended-trans bytes completed s (send_chunk world s).1 run memory queue (
        next sent' p' (
          rw (memory, further went)
            (omega (
              arith,
              f,
              (get_send_data_size_lem s.send_buffer sent p.sending).3 (ltb→lt _ _ some),
              get_send_data_size_lem s.send_buffer sent p.sending,
            ))))

  pub drain_lem :
      (fuel count : ℕ) (bytes : List ℕ) (completed : ℕ) (s : RioSession) (sent : ℕ)
      → IsPending bytes completed s sent
      → s.send_buffer.ring.size - sent < fuel
      → Ended bytes completed s (drain world fuel count s)
  unfolding drain Ended
  drain_lem zero count bytes completed s sent p f = absurd (omega (arith, f))
  drain_lem (suc fuel) count bytes completed s sent p f =
      if_lem (Ended bytes completed s) (ltb 0 (get_send_data_size s.send_buffer)) _ _
        (λ some.
          if_lem (Ended bytes completed s) (send_chunk world s).0 _ _
            (λ went. gone_on fuel bytes completed s sent _ p f some went (λ sent' p' f'.
              drain_lem fuel (count + 1) bytes completed (send_chunk world s).1 sent' p' f'))
            (λ refused. Ended-here count bytes completed s sent p))
        (λ none. (count, s, sent, refl, p, refl, refl))

  pub drain_some_lem :
      (fuel count : ℕ) (bytes : List ℕ) (completed : ℕ) (s : RioSession) (sent : ℕ)
      → IsPending bytes completed s sent
      → s.send_buffer.ring.size - sent < fuel
      → Ended bytes completed s (drain_some world fuel count s)
  unfolding drain_some Ended
  drain_some_lem zero count bytes completed s sent p f = absurd (omega (arith, f))
  drain_some_lem (suc fuel) count bytes completed s sent p f =
      if_lem (Ended bytes completed s) (ltb 0 (get_send_data_size s.send_buffer)) _ _
        (λ some.
          if_lem (Ended bytes completed s) (send_chunk world s).0 _ _
            (λ went.
              if_lem (Ended bytes completed s) (leb max_post_cnt (count + 1)) _ _
                (λ full. Ended-here (count + 1) bytes completed s sent p)
                (λ more. gone_on fuel bytes completed s sent _ p f some went (λ sent' p' f'.
                  drain_some_lem fuel (count + 1) bytes completed (send_chunk world s).1 sent' p'
                    f')))
            (λ refused. Ended-here count bytes completed s sent p))
        (λ none. (count, s, sent, refl, p, refl, refl))
