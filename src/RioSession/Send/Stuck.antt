-- ===== src/RioSession/Send/Stuck.antt =====
-- `SendDeferred` of RioSession.cpp on a send buffer that is full of bytes not handed over yet.
use rio_iocp_server.Prelude.{
  ℕ, zero, suc, ◌-◌, ◌<◌, ◌≡◌, refl, sym, ap, Bool, true, false, List, ◌∷◌, ok, leb, ◌==◌, ◌||◌,
  ◌&&◌, not, length, take, take-length, subst, arith, length-append, inl, inr,
}
use rio_iocp_server.RingBuffer.{write_buffer}
use rio_iocp_server.RingBuffer.Contents.{contents, length-contents}
use rio_iocp_server.RioBuffer.{RioBuffer, get_send_data_size}
use rio_iocp_server.RioBuffer.Unsent.{IsSending, get_send_data_size_lem, write_buffer-IsSending}
use rio_iocp_server.RioSession.Defs.{RioSession, World}
use rio_iocp_server.RioSession.Send.{
  commit_time, drain_some, take_queue, finish_send, send_deferred,
}

-- A buffer that is full of bytes not handed over is written to in vain.
write_buffer-refused :
    (fuel : ℕ) (b : RioBuffer) (data_in : List ℕ)
    → IsSending b 0
    → b.ring.size ≡ b.ring.capacity
    → 0 < length data_in
    → length data_in < fuel
    → write_buffer fuel b.ring data_in (length data_in) ≡ ok (false, b.ring)
write_buffer-refused fuel b data_in v full some_bytes f =
    elim (write_buffer-IsSending fuel b 0 data_in (length data_in) v (omega arith) f) [
      | inl refused ↦ refused
      | inr (r', _, sending, appended, same) ↦ absurd (
          omega (
            arith,
            full,
            same,
            sending.valid,
            length-contents r',
            length-contents b.ring,
            ap length appended,
            length-append (contents b.ring) (take (length data_in) data_in),
            ap length (take-length (length data_in) data_in (omega arith)),
          ))
    ]

stuck_size :
    (b : RioBuffer) → IsSending b 0 → b.ring.size ≡ b.ring.capacity → get_send_data_size b ≡ 0
stuck_size b v full = omega (arith, full, v.valid, get_send_data_size_lem b 0 v)

take_queue-stuck :
    (world : World) (fuel rounds : ℕ) (s : RioSession) (net_buffer : List ℕ) (queue : List (List ℕ))
    → IsSending s.send_buffer 0
    → s.send_buffer.ring.size ≡ s.send_buffer.ring.capacity
    → 0 < length net_buffer
    → length net_buffer < fuel
    → take_queue world fuel (suc rounds) 0 (record s { send_queue = net_buffer ∷ queue })
      ≡ ok (0, record s { send_queue = net_buffer ∷ queue })
unfolding take_queue
take_queue-stuck world fuel rounds s net_buffer queue v full some_bytes f =
    rw (write_buffer-refused fuel s.send_buffer net_buffer v full some_bytes f) refl

drain_some-stuck :
    (world : World) (fuel : ℕ) (s : RioSession)
    → get_send_data_size s.send_buffer ≡ 0
    → drain_some world (suc fuel) 0 s ≡ ok (0, s)
unfolding drain_some
drain_some-stuck world fuel s e = rw (e) refl

both_true : (a b : Bool) → a ≡ true → b ≡ true → (not a || not b) ≡ false
both_true a b p q = rw (p, q) refl

-- When all bytes of a full send buffer are still to be handed over, and the send queue has a
-- buffer with a byte in front, `SendDeferred` of a connected session whose turn it
-- is returns true and only sets the time: no byte is sent.
pub send_deferred-stuck :
    (world : World) (fuel : ℕ) (s : RioSession) (net_buffer : List ℕ) (queue : List (List ℕ))
    → IsSending s.send_buffer 0
    → s.send_buffer.ring.size ≡ s.send_buffer.ring.capacity
    → s.send_queue ≡ net_buffer ∷ queue
    → 0 < length net_buffer
    → length net_buffer < fuel
    → s.is_connected ≡ true
    → s.is_allocated ≡ true
    → (not (s.last_send_time == 0) && leb (world.now s - s.last_send_time) commit_time) ≡ false
    → send_deferred world fuel s ≡ ok (true, record s { last_send_time = world.now s })
unfolding send_deferred finish_send
send_deferred-stuck world zero s net_buffer queue v full e some_bytes f up there late =
    absurd (omega (arith, f))
send_deferred-stuck world (suc fuel) s net_buffer queue v full e some_bytes f up there late =
    let taken : take_queue world (suc fuel) (suc fuel) 0 s ≡ ok (0, s) =
      subst
        (λ q.
          take_queue world (suc fuel) (suc fuel) 0 (record s { send_queue = q })
          ≡ ok (0, record s { send_queue = q }))
        (sym e) (take_queue-stuck world (suc fuel) fuel s net_buffer queue v full some_bytes f) in
    rw
      (
        both_true s.is_connected s.is_allocated up there,
        late,
        taken,
        drain_some-stuck world fuel s (stuck_size s.send_buffer v full),
      )
      refl
