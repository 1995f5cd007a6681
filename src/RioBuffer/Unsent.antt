-- ===== src/RioBuffer/Unsent.antt =====
-- Which bytes of a RioBuffer (ServerCore/Network/RioBuffer.cpp) are not handed to RIOSend yet, and
-- what the four operations that a RIO session uses do to them.
use rio_iocp_server.Prelude.{
  ℕ, ◌+◌, ◌-◌, ◌%◌, ◌≤◌, ◌<◌, ◌≡◌, ◌⊎◌, inl, inr, refl, sym, ap, ap₂, length-append, ◌∙◌, List,
  ◌++◌, arith, true, false, length, take, drop, tabulate, mod_cases, mod-shift, ge→ltb, drop-drop,
  drop-append_le, ok,
}
use rio_iocp_server.Memory.{slice}
use rio_iocp_server.RingBuffer.{RingBuffer, on_read_buffer, write_buffer}
use rio_iocp_server.RingBuffer.Contents.{
  IsValid, contents, length-contents, cell, cells-split, cells-slice,
}
use rio_iocp_server.RingBuffer.Write.{write_buffer_lem}
use rio_iocp_server.RingBuffer.Read.{advanced-IsValid, contents-advanced}
use rio_iocp_server.RioBuffer.{RioBuffer, get_chunk_send_size, get_send_data_size, on_send_buffer}

-- The oldest `sent` bytes are handed over, and the send position stands behind them.
pub record IsSending (b : RioBuffer) (sent : ℕ) : Type 0 where
  pub valid : IsValid b.ring
  pub send_at : b.send_pos ≡ (b.ring.tail_pos + sent) % b.ring.capacity
  pub held : sent ≤ b.ring.size

-- The bytes that are not handed over yet, in order.
abbrev pub unsent : RioBuffer → ℕ → List ℕ
unsent b sent = drop sent (contents b.ring)

-- `GetSendDataSize` is the number of bytes not handed over yet, unless they fill the buffer: then it
-- is 0. `GetChunkSendSize` is a part of them that ends inside the memory, and is 0 only if
-- `GetSendDataSize` is.
pub get_send_data_size_lem :
    (b : RioBuffer) (sent : ℕ)
    → IsSending b sent
    → ((b.ring.size - sent < b.ring.capacity) × (get_send_data_size b ≡ b.ring.size - sent)
        ⊎ (b.ring.size - sent ≡ b.ring.capacity) × (get_send_data_size b ≡ 0))
      × (get_chunk_send_size b ≤ get_send_data_size b)
      × (b.send_pos + get_chunk_send_size b ≤ b.ring.capacity)
      × (0 < get_send_data_size b → 0 < get_chunk_send_size b)
unfolding get_send_data_size get_chunk_send_size
get_send_data_size_lem b sent v = ground (
  arith,
  v.valid,
  mod_cases (b.ring.tail_pos + sent) b.ring.capacity,
  mod_cases (b.ring.tail_pos + b.ring.size) b.ring.capacity,
)

-- The buffer when a chunk was handed over.
abbrev pub handed_over : RioBuffer → RioBuffer
handed_over b = record b { send_pos = (b.send_pos + get_chunk_send_size b) % b.ring.capacity }

pub accepted :
    (b : RioBuffer) (sent : ℕ)
    → IsSending b sent
    → on_send_buffer b (get_chunk_send_size b) ≡ (true, handed_over b)
unfolding on_send_buffer
accepted b sent v = rw (
    ge→ltb (get_send_data_size b) (get_chunk_send_size b)
      (omega (arith, get_send_data_size_lem b sent v)))

unsent_cells :
    (b : RioBuffer) (sent : ℕ)
    → IsSending b sent
    → unsent b sent ≡ tabulate (b.ring.size - sent) (cell b.ring.buffer b.ring.capacity b.send_pos)
unsent_cells b sent v =
    sym (contents-advanced b.ring sent v.held)
    ∙ ap (λ t. tabulate (b.ring.size - sent) (cell b.ring.buffer b.ring.capacity t)) (sym v.send_at)

pub handed_over-IsSending :
    (b : RioBuffer) (sent : ℕ)
    → IsSending b sent
    → IsSending (handed_over b) (sent + get_chunk_send_size b)
handed_over-IsSending b sent v = record {
  valid = v.valid;
  send_at =
      mod-shift b.send_pos b.ring.tail_pos sent (get_chunk_send_size b) b.ring.capacity v.send_at;
  held = omega (arith, v, get_send_data_size_lem b sent v);
}

pub unsent-handed_over :
    (b : RioBuffer) (sent : ℕ)
    → IsSending b sent
    → unsent b sent
      ≡ slice b.ring.buffer b.send_pos (get_chunk_send_size b)
        ++ unsent (handed_over b) (sent + get_chunk_send_size b)
unsent-handed_over b sent v =
    let chunk = get_chunk_send_size b in
    unsent_cells b sent v
    ∙ cells-split b.ring.buffer b.ring.capacity b.send_pos (b.ring.size - sent) chunk
        (b.ring.size - (sent + chunk)) (omega (arith, get_send_data_size_lem b sent v))
    ∙ ap₂ ◌++◌
        (sym (
          cells-slice b.ring.buffer b.ring.capacity b.send_pos chunk v.valid.storage
            (omega (arith, get_send_data_size_lem b sent v))))
        (sym (unsent_cells (handed_over b) (sent + chunk) (handed_over-IsSending b sent v)))

-- One chunk is handed over: the memory at the send position holds exactly the oldest bytes that were
-- not handed over, `OnSendBuffer` with the size of the chunk returns true, and the bytes not handed
-- over are the other ones.
pub on_send_buffer-chunk :
    (b : RioBuffer) (sent : ℕ)
    → IsSending b sent
    → ((on_send_buffer b (get_chunk_send_size b)).0 ≡ true)
      × IsSending (on_send_buffer b (get_chunk_send_size b)).1 (sent + get_chunk_send_size b)
      × (unsent b sent
          ≡ slice b.ring.buffer b.send_pos (get_chunk_send_size b)
            ++ unsent (on_send_buffer b (get_chunk_send_size b)).1 (sent + get_chunk_send_size b))
on_send_buffer-chunk b sent v =
    rw (accepted b sent v) (refl, handed_over-IsSending b sent v, unsent-handed_over b sent v)

-- `WriteBuffer` into the buffer of a session that is sending, with readable data and more rounds
-- than bytes: it is refused and changes nothing, or it returns true, keeps the capacity, and the bytes not
-- handed over are those from before with the data behind them.
pub write_buffer-IsSending :
    (fuel : ℕ) (b : RioBuffer) (sent : ℕ) (data_in : List ℕ) (write_size : ℕ)
    → IsSending b sent
    → write_size ≤ length data_in
    → write_size < fuel
    → (write_buffer fuel b.ring data_in write_size ≡ ok (false, b.ring))
      ⊎ ((r' : RingBuffer) × (write_buffer fuel b.ring data_in write_size ≡ ok (true, r'))
          × IsSending (record b { ring = r' }) sent
          × (unsent (record b { ring = r' }) sent ≡ unsent b sent ++ take write_size data_in)
          × (r'.capacity ≡ b.ring.capacity))
write_buffer-IsSending fuel b sent data_in n v inside f =
    elim (write_buffer_lem fuel b.ring data_in n v.valid inside f) [
      | inl (_, refused) ↦ inl refused
      | inr (r', runs, valid, bytes, same_capacity, same_tail) ↦ inr (
        r',
        runs,
        record {
          valid = valid;
          send_at = rw (same_capacity, same_tail) v.send_at;
          held = omega (
            arith,
            v.held,
            length-contents r',
            length-contents b.ring,
            ap length bytes,
            length-append (contents b.ring) (take n data_in),
          );
        },
        ap (drop sent) bytes
            ∙ drop-append_le sent (contents b.ring) (take n data_in)
                (omega (arith, v.held, length-contents b.ring)),
        same_capacity,
      )
    ]

-- `OnReadBuffer` for bytes whose send is complete: it returns true, and the bytes not handed over
-- are the same.
pub on_read_buffer-IsSending :
    (b : RioBuffer) (sent read_size : ℕ)
    → IsSending b sent
    → read_size ≤ sent
    → ((on_read_buffer b.ring read_size).0 ≡ true)
      × IsSending (record b { ring = (on_read_buffer b.ring read_size).1 }) (sent - read_size)
      × (unsent (record b { ring = (on_read_buffer b.ring read_size).1 }) (sent - read_size)
          ≡ unsent b sent)
unfolding on_read_buffer
on_read_buffer-IsSending b sent n v h = rw (ge→ltb b.ring.size n (omega (arith, v.held))) (
  refl,
  record {
    valid = advanced-IsValid b.ring b.ring.size n (b.ring.size - n) v.valid (omega (arith, v.held));
    send_at =
        v.send_at
        ∙ ap (λ k. (b.ring.tail_pos + k) % b.ring.capacity) split
        ∙ sym (
            mod-shift ((b.ring.tail_pos + n) % b.ring.capacity) b.ring.tail_pos n (sent - n)
              b.ring.capacity refl);
    held = omega (arith, v.held);
  },
  ap (drop (sent - n)) (contents-advanced b.ring n (omega (arith, v.held)))
      ∙ drop-drop n (sent - n) sent (contents b.ring) split,
)
  where
    split : sent ≡ n + (sent - n)
    split = omega arith
