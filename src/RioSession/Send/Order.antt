-- ===== src/RioSession/Send/Order.antt =====
-- The requests of `SendDeferred` of RioSession.cpp, and the bytes that are still to be sent.
use rio_iocp_server.Prelude.{
  ℕ, ◌+◌, ◌≡◌, refl, sym, ap, ◌∙◌, Bool, true, false, List, [], ◌∷◌, ◌++◌, not, length, flatten,
  arith, append_assoc, append-nil, if_lem, length-append,
}
use rio_iocp_server.Memory.{slice, length-slice}
use rio_iocp_server.RioBuffer.{RioBuffer, get_chunk_send_size, get_send_offset}
use rio_iocp_server.RioBuffer.Unsent.{
  IsSending, unsent, handed_over, accepted, handed_over-IsSending, unsent-handed_over,
  get_send_data_size_lem,
}
use rio_iocp_server.RioSession.Defs.{
  RioSession, World, Call, SendAnswer, queued, no_buffers, failed, send_request, queued_bytes,
  logged, connected,
}
use rio_iocp_server.RioSession.Connection.Kept.{Kept, IsQuiet, fail_Kept}
use rio_iocp_server.RioSession.Send.{answered, register_send, send_chunk}

-- The bodies of the virtual methods leave the send buffer alone, and neither send nor take from the
-- send queue themselves.
pub record KeepsSending (world : World) : Type 0 where
  pub keeps_buffer : (c : Call) (s : RioSession) → (world.on_call c s).send_buffer ≡ s.send_buffer
  pub keeps_queue : (c : Call) (s : RioSession) → (world.on_call c s).send_queue ≡ s.send_queue
  pub keeps_queued :
      (c : Call) (s : RioSession) → queued_bytes (world.on_call c s).log ≡ queued_bytes s.log

pub record SameSending (s s' : RioSession) : Type 0 where
  pub same_buffer : s'.send_buffer ≡ s.send_buffer
  pub same_queue : s'.send_queue ≡ s.send_queue
  pub same_queued : queued_bytes s'.log ≡ queued_bytes s.log

-- The bytes that RIOSend queued, those in the buffer that are not handed over, and those of the send
-- queue: all that the session was asked to send, in order.
abbrev pub to_send : RioSession → ℕ → List ℕ
to_send s sent = queued_bytes s.log ++ (unsent s.send_buffer sent ++ flatten s.send_queue)

queued_bytes-append :
    (log log' : List Call) → queued_bytes (log ++ log') ≡ queued_bytes log ++ queued_bytes log'
unfolding queued_bytes
queued_bytes-append [] log' = refl
queued_bytes-append (send_request bytes queued ∷ log) log' =
    ap (λ l. bytes ++ l) (queued_bytes-append log log')
    ∙ sym (append_assoc bytes (queued_bytes log) (queued_bytes log'))
queued_bytes-append (send_request bytes no_buffers ∷ log) log' = queued_bytes-append log log'
queued_bytes-append (send_request bytes failed ∷ log) log' = queued_bytes-append log log'
queued_bytes-append (connected ∷ log) log' = queued_bytes-append log log'
queued_bytes-append (_ ∷ log) log' = queued_bytes-append log log'

quiet_has_none : (c : Call) → IsQuiet c → queued_bytes (c ∷ []) ≡ []
unfolding queued_bytes
quiet_has_none (send_request bytes answer) h = absurd h
quiet_has_none connected h = refl
quiet_has_none _ h = refl

logged-SameSending :
    (c : Call) (s : RioSession) → queued_bytes (c ∷ []) ≡ [] → SameSending s (logged c s)
logged-SameSending c s none = record {
  same_buffer = refl;
  same_queue = refl;
  same_queued =
      queued_bytes-append s.log (c ∷ [])
      ∙ ap (λ l. queued_bytes s.log ++ l) none
      ∙ append-nil (queued_bytes s.log);
}

trans-SameSending : (s t u : RioSession) → SameSending s t → SameSending t u → SameSending s u
trans-SameSending s t u p q = record {
  same_buffer = q.same_buffer ∙ p.same_buffer;
  same_queue = q.same_queue ∙ p.same_queue;
  same_queued = q.same_queued ∙ p.same_queued;
}

pub sending_Kept : (world : World) → KeepsSending world → Kept world SameSending
sending_Kept world keeps = record {
  self = λ s. record { same_buffer = refl; same_queue = refl; same_queued = refl };
  trans = trans-SameSending;
  quiet = λ c s h. logged-SameSending c s (quiet_has_none c h);
  called = λ c s. record {
    same_buffer = keeps.keeps_buffer c s;
    same_queue = keeps.keeps_queue c s;
    same_queued = keeps.keeps_queued c s;
  };
  down = λ s. record { same_buffer = refl; same_queue = refl; same_queued = refl };
}

-- The session sends, `bytes` is all that it was asked to send, and RIOSend completed `completed` of the
-- bytes that it queued.
pub record IsPending (bytes : List ℕ) (completed : ℕ) (s : RioSession) (sent : ℕ) : Type 0 where
  pub sending : IsSending s.send_buffer sent
  pub all_bytes : to_send s sent ≡ bytes
  pub balance : length (queued_bytes s.log) ≡ completed + sent

pub same_IsPending :
    (bytes : List ℕ) (completed : ℕ) (s s' : RioSession) (sent : ℕ)
    → SameSending s s'
    → IsPending bytes completed s sent
    → IsPending bytes completed s' sent
same_IsPending bytes completed s s' sent same p = record {
  sending = rw (same.same_buffer) p.sending;
  all_bytes = rw (same.same_queued, same.same_buffer, same.same_queue) p.all_bytes;
  balance = rw (same.same_queued) p.balance;
}

regroup :
    (l chunk rest queue : List ℕ)
    → (l ++ (chunk ++ [])) ++ (rest ++ queue) ≡ l ++ ((chunk ++ rest) ++ queue)
regroup l chunk rest queue = simp (append_assoc, append-nil)

false_not_true : ¬ (false ≡ true)
false_not_true h = ground arith

abbrev request_of : RioBuffer → Call
request_of b = send_request (slice b.ring.buffer b.send_pos (get_chunk_send_size b)) queued

chunk_length :
    (b : RioBuffer) (sent : ℕ)
    → IsSending b sent
    → length (queued_bytes (request_of b ∷ [])) ≡ get_chunk_send_size b
unfolding queued_bytes
chunk_length b sent v =
    ap length (append-nil (slice b.ring.buffer b.send_pos (get_chunk_send_size b)))
    ∙ length-slice b.ring.buffer b.send_pos (get_chunk_send_size b)
        (omega (arith, v.valid, get_send_data_size_lem b sent v))

-- What a request to send leaves: the same memory and send queue, and all bytes.
unfoldable pub Requested : List ℕ → ℕ → RioSession → ℕ → Bool × RioSession → Type 0
Requested bytes completed s sent (accept, s') =
    (sent' : ℕ) × IsPending bytes completed s' sent'
    × (s'.send_buffer.ring ≡ s.send_buffer.ring)
    × (s'.send_queue ≡ s.send_queue)
    × (accept ≡ true → sent' ≡ sent + get_chunk_send_size s.send_buffer)

module _ (world : World) (keeps : KeepsSending world) where
  refused_Requested :
      (bytes : List ℕ) (completed : ℕ) (s s' : RioSession) (sent : ℕ)
      → IsPending bytes completed s sent
      → SameSending s s'
      → Requested bytes completed s sent (false, s')
  unfolding Requested
  refused_Requested bytes completed s s' sent p same = (
    sent,
    same_IsPending bytes completed s s' sent same p,
    ap (λ b. b.ring) same.same_buffer,
    same.same_queue,
    λ h. absurd (false_not_true h),
  )

  answered-Requested :
      (answer : SendAnswer) (bytes : List ℕ) (completed : ℕ) (s : RioSession) (sent : ℕ)
      → IsPending bytes completed s sent
      → Requested bytes completed s sent (
          answered world answer (get_chunk_send_size s.send_buffer) (
            logged
              (send_request
                (slice s.send_buffer.ring.buffer s.send_buffer.send_pos
                  (get_chunk_send_size s.send_buffer))
                answer)
              s))
  unfolding answered queued_bytes Requested
  answered-Requested queued bytes completed s sent p = rw (accepted s.send_buffer sent p.sending) (
    sent + get_chunk_send_size s.send_buffer,
    record {
      sending = handed_over-IsSending s.send_buffer sent p.sending;
      all_bytes =
          ap
            (λ l.
              l
              ++ (unsent (handed_over s.send_buffer) (sent + get_chunk_send_size s.send_buffer)
                  ++ flatten s.send_queue))
            (queued_bytes-append s.log _)
          ∙ regroup (queued_bytes s.log) _ _ (flatten s.send_queue)
          ∙ ap (λ l. queued_bytes s.log ++ (l ++ flatten s.send_queue))
              (sym (unsent-handed_over s.send_buffer sent p.sending))
          ∙ p.all_bytes;
      balance = omega (
        arith,
        p.balance,
        ap length (queued_bytes-append s.log (request_of s.send_buffer ∷ [])),
        length-append (queued_bytes s.log) (queued_bytes (request_of s.send_buffer ∷ [])),
        chunk_length s.send_buffer sent p.sending,
      );
    },
    refl,
    refl,
    λ h. refl,
  )
  answered-Requested no_buffers bytes completed s sent p =
      refused_Requested bytes completed s _ sent p (logged-SameSending _ s refl)
  answered-Requested failed bytes completed s sent p =
      let request =
        send_request
          (slice s.send_buffer.ring.buffer s.send_buffer.send_pos
            (get_chunk_send_size s.send_buffer))
          failed in
      refused_Requested bytes completed s _ sent p (
        trans-SameSending s (logged request s) _ (logged-SameSending request s refl)
          (fail_Kept world SameSending (sending_Kept world keeps) (logged request s)))

  pub send_chunk-Requested :
      (bytes : List ℕ) (completed : ℕ) (s : RioSession) (sent : ℕ)
      → IsPending bytes completed s sent
      → Requested bytes completed s sent (send_chunk world s)
  unfolding send_chunk register_send
  send_chunk-Requested bytes completed s sent p =
      let answer =
        world.rio_send s (get_chunk_send_size s.send_buffer) (get_send_offset s.send_buffer) in
      if_lem (Requested bytes completed s sent) (not s.is_connected) _ _
        (λ h. refused_Requested bytes completed s s sent p ((sending_Kept world keeps).self s))
        (λ h. answered-Requested answer bytes completed s sent p)
