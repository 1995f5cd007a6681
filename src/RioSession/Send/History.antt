-- ===== src/RioSession/Send/History.antt =====
-- `Send`, `SendDeferred` and `ProcessSend` of RioSession.cpp, in any order: what RIOSend gets.
use rio_iocp_server.Prelude.{
  ℕ, ◌+◌, ◌-◌, ◌≤◌, ◌<◌, ◌≡◌, sym, ap, ◌∙◌, Bool, true, List, [], ◌∷◌, ◌++◌, ok, length, flatten,
  arith, append_assoc, append-nil, subst, lt→==_false,
}
use rio_iocp_server.RingBuffer.{on_read_buffer}
use rio_iocp_server.RioBuffer.Unsent.{IsSending, unsent, on_read_buffer-IsSending}
use rio_iocp_server.RioSession.Defs.{
  RioSession, World, sent_done, queued_bytes, logged, virtual_call,
}
use rio_iocp_server.RioSession.Connection.{send}
use rio_iocp_server.RioSession.Receive.{process_send}
use rio_iocp_server.RioSession.Send.{send_deferred}
use rio_iocp_server.RioSession.Send.Order.{
  KeepsSending, SameSending, sending_Kept, IsPending, same_IsPending,
}
use rio_iocp_server.RioSession.Send.Deferred.{send_deferred_lem}

-- The life of a session that sends: which buffers were given to `Send` while it was connected, and
-- how many bytes RIOSend completed. A completion is of bytes that RIOSend queued before.
pub data Sends (world : World) (s : RioSession) : List (List ℕ) → ℕ → RioSession → Type 0 where
  start : Sends world s [] 0 s
  asked :
      (net_buffer : List ℕ) {buffers : List (List ℕ)} {completed : ℕ} {s' : RioSession}
      → Sends world s buffers completed s'
      → s'.is_connected ≡ true
      → Sends world s (buffers ++ net_buffer ∷ []) completed (send net_buffer s')
  deferred :
      (fuel : ℕ) {buffers : List (List ℕ)} {completed : ℕ} {s' : RioSession} (result : Bool)
      (s'' : RioSession)
      → Sends world s buffers completed s'
      → s'.send_buffer.ring.capacity < fuel
      → length s'.send_queue < fuel
      → length (flatten s'.send_queue) < fuel
      → send_deferred world fuel s' ≡ ok (result, s'')
      → Sends world s buffers completed s''
  done :
      (n : ℕ) {buffers : List (List ℕ)} {completed : ℕ} {s' : RioSession}
      → Sends world s buffers completed s'
      → 0 < n
      → completed + n ≤ length (queued_bytes s'.log)
      → Sends world s buffers (completed + n) (process_send world n s')

flatten-snoc : (xss : List (List ℕ)) (xs : List ℕ) → flatten (xss ++ xs ∷ []) ≡ flatten xss ++ xs
unfolding flatten
flatten-snoc [] xs = append-nil xs
flatten-snoc (ys ∷ xss) xs =
    ap (λ l. ys ++ l) (flatten-snoc xss xs) ∙ sym (append_assoc ys (flatten xss) xs)

shift : (a b c d : List ℕ) → a ++ (b ++ (c ++ d)) ≡ (a ++ (b ++ c)) ++ d
shift a b c d = simp (append_assoc)

send_lem :
    (net_buffer bytes : List ℕ) (completed : ℕ) (s : RioSession) (sent : ℕ)
    → s.is_connected ≡ true
    → IsPending bytes completed s sent
    → IsPending (bytes ++ net_buffer) completed (send net_buffer s) sent
unfolding send
send_lem net_buffer bytes completed s sent up p = rw (up) record {
  sending = p.sending;
  all_bytes =
      ap (λ l. queued_bytes s.log ++ (unsent s.send_buffer sent ++ l))
        (flatten-snoc s.send_queue net_buffer)
      ∙ shift (queued_bytes s.log) (unsent s.send_buffer sent) (flatten s.send_queue) net_buffer
      ∙ ap (λ l. l ++ net_buffer) p.all_bytes;
  balance = p.balance;
}

module _ (world : World) (keeps : KeepsSending world) where
  process_send_lem :
      (n : ℕ) (bytes : List ℕ) (completed : ℕ) (s : RioSession) (sent : ℕ)
      → 0 < n
      → completed + n ≤ length (queued_bytes s.log)
      → IsPending bytes completed s sent
      → IsPending bytes (completed + n) (process_send world n s) (sent - n)
  unfolding process_send
  process_send_lem n bytes completed s sent some_bytes inside p =
      rw (lt→==_false n some_bytes, read.0)
        record {
          sending = read.1;
          all_bytes =
              ap (λ l. queued_bytes s'.log ++ (l ++ flatten s'.send_queue)) read.2 ∙ p'.all_bytes;
          balance = omega (arith, p'.balance, p.balance, inside);
        }
    where
      s' : RioSession
      s' = virtual_call world (sent_done n) s

      same : SameSending s s'
      same =
          let kept = sending_Kept world keeps in
          kept.trans s (logged (sent_done n) s) s' (kept.quiet (sent_done n) s tt)
            (kept.called (sent_done n) (logged (sent_done n) s))

      p' : IsPending bytes completed s' sent
      p' = same_IsPending bytes completed s s' sent same p

      read :
          ((on_read_buffer s'.send_buffer.ring n).0 ≡ true)
          × IsSending
              (record (s'.send_buffer) { ring = (on_read_buffer s'.send_buffer.ring n).1 })
              (sent - n)
          × (unsent
                (record (s'.send_buffer) { ring = (on_read_buffer s'.send_buffer.ring n).1 })
                (sent - n)
              ≡ unsent s'.send_buffer sent)
      read =
          on_read_buffer-IsSending s'.send_buffer sent n p'.sending
            (omega (arith, p.balance, inside))

  -- When the virtual methods leave the send path alone, from a session that was asked to send nothing
  -- yet, after any sequence of `Send` while it is connected, `SendDeferred` and completions of queued
  -- bytes: the send buffer is well formed, and the bytes of the requests that RIOSend queued, those of
  -- the buffer that are not handed over and those of the send queue are, one behind the other,
  -- exactly the buffers given to `Send`, in order.
  pub sends_lem :
      (s : RioSession) (buffers : List (List ℕ)) (completed : ℕ) (s' : RioSession)
      → IsPending [] 0 s 0
      → Sends world s buffers completed s'
      → (sent : ℕ) × IsPending (flatten buffers) completed s' sent
  unfolding flatten
  sends_lem s _ _ _ fresh start = (0, fresh)
  sends_lem s _ completed _ fresh (asked net_buffer {buffers} {s' = s'} before up) =
      let (sent, p) = sends_lem s buffers completed s' fresh before in
      (
        sent,
        subst (λ l. IsPending l completed (send net_buffer s') sent)
            (sym (flatten-snoc buffers net_buffer))
            (send_lem net_buffer (flatten buffers) completed s' sent up p),
      )
  sends_lem s buffers completed _ fresh (deferred fuel {s' = s'} result s'' before f g h runs) =
      let (sent, p) = sends_lem s buffers completed s' fresh before in
      let (result', t, sent', runs', p') =
        send_deferred_lem world keeps fuel (flatten buffers) completed s' sent p f g h in
      let same : t ≡ s'' = cc in
      (sent', subst (λ u. IsPending (flatten buffers) completed u sent') same p')
  sends_lem s buffers _ _ fresh (done n {completed = c} {s' = s'} before some_bytes inside) =
      let (sent, p) = sends_lem s buffers c s' fresh before in
      (sent - n, process_send_lem n (flatten buffers) c s' sent some_bytes inside p)
