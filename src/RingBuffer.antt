-- ===== src/RingBuffer.antt =====
-- ServerCore/Network/RingBuffer.h and RingBuffer.cpp: the byte ring under every session's buffers.
-- `int` values are natural numbers: every caller passes sizes and offsets that are not negative.
-- `m_capacity` is positive in every buffer the server makes; `% 0` is outside the model.
pub mod Contents
pub mod Write
pub mod Read
pub mod Overlap
pub mod Adjust
mod Tests
use rio_iocp_server.Prelude.{
  ℕ, zero, suc, ◌+◌, ◌-◌, ◌/◌, ◌%◌, Bool, true, false, List, ltb, leb, ◌==◌, if◌then◌else◌, Outcome,
  ok, running, ◌>>=◌,
}
use rio_iocp_server.Memory.{memcpy, memcpy_within}

-- The members of the class. `head_pos` is the write position, `tail_pos` the read position.
pub record RingBuffer : Type 0 where
  pub capacity : ℕ
  pub size : ℕ
  pub buffer : List ℕ
  pub head_pos : ℕ
  pub tail_pos : ℕ

-- The constructor.
unfoldable pub make : List ℕ → ℕ → RingBuffer
make buffer capacity = record {
  capacity = capacity;
  size = 0;
  buffer = buffer;
  head_pos = 0;
  tail_pos = 0;
}

abbrev pub get_data_size : RingBuffer → ℕ
get_data_size r = r.size

abbrev pub get_free_size : RingBuffer → ℕ
get_free_size r = r.capacity - r.size

abbrev pub get_write_offset : RingBuffer → ℕ
get_write_offset r = r.head_pos

abbrev pub get_read_offset : RingBuffer → ℕ
get_read_offset r = r.tail_pos

unfoldable pub get_chunk_write_size : RingBuffer → ℕ
get_chunk_write_size r =
    if leb r.tail_pos r.head_pos then r.capacity - r.head_pos else r.tail_pos - r.head_pos

unfoldable pub get_chunk_read_size : RingBuffer → ℕ
get_chunk_read_size r =
    if leb r.tail_pos r.head_pos then r.head_pos - r.tail_pos else r.capacity - r.tail_pos

-- One `memcpy` of `WriteBuffer`'s loop, with the move of the head.
unfoldable pub write_chunk : RingBuffer → List ℕ → ℕ → ℕ → Outcome RingBuffer
write_chunk r data_in pos n = memcpy r.buffer r.head_pos data_in pos n >>= λ buffer.
    ok (record r { buffer = buffer; head_pos = (r.head_pos + n) % r.capacity })

-- The loop of `WriteBuffer`. `pos` is `currentWritePos` and `need` is `needToWriteSize`.
unfoldable pub write_loop : ℕ → RingBuffer → List ℕ → ℕ → ℕ → Outcome RingBuffer
write_loop zero r data_in pos need = running
write_loop (suc fuel) r data_in pos need =
    let chunk = get_chunk_write_size r in
    let next = write_chunk r data_in pos chunk >>= λ r'.
    write_loop fuel r' data_in (pos + chunk) (need - chunk) in
    if ltb 0 need then (if ltb chunk need then next else write_chunk r data_in pos need) else ok r

unfoldable pub write_buffer : ℕ → RingBuffer → List ℕ → ℕ → Outcome (Bool × RingBuffer)
write_buffer fuel r data_in write_size =
    if ltb (get_free_size r) write_size
    then ok (false, r)
    else (write_loop fuel r data_in 0 write_size >>= λ r'.
        ok (true, record r' { size = r'.size + write_size }))

-- One `memcpy` of `ReadBuffer`'s loop, with the move of the tail. `dest` is the caller's memory.
unfoldable pub read_chunk : RingBuffer → List ℕ → ℕ → ℕ → Outcome (List ℕ × RingBuffer)
read_chunk r dest pos n = memcpy dest pos r.buffer r.tail_pos n >>= λ dest'.
    ok (dest', record r { tail_pos = (r.tail_pos + n) % r.capacity })

-- The loop of `ReadBuffer`.
unfoldable pub read_loop : ℕ → RingBuffer → List ℕ → ℕ → ℕ → Outcome (List ℕ × RingBuffer)
read_loop zero r dest pos need = running
read_loop (suc fuel) r dest pos need =
    let chunk = get_chunk_read_size r in
    let next = read_chunk r dest pos chunk >>= λ (dest', r').
    read_loop fuel r' dest' (pos + chunk) (need - chunk) in
    if ltb 0 need
    then (if ltb chunk need then next else read_chunk r dest pos need)
    else ok (dest, r)

unfoldable pub read_buffer : ℕ → RingBuffer → List ℕ → ℕ → Outcome (Bool × List ℕ × RingBuffer)
read_buffer fuel r dest read_size =
    if ltb (get_data_size r) read_size
    then ok (false, dest, r)
    else (read_loop fuel r dest 0 read_size >>= λ (dest', r').
        ok (true, dest', record r' { size = r'.size - read_size }))

unfoldable pub on_write_buffer : RingBuffer → ℕ → Bool × RingBuffer
on_write_buffer r write_size = if ltb (get_free_size r) write_size then (false, r) else (
  true,
  record r { head_pos = (r.head_pos + write_size) % r.capacity; size = r.size + write_size },
)

unfoldable pub on_read_buffer : RingBuffer → ℕ → Bool × RingBuffer
on_read_buffer r read_size = if ltb (get_data_size r) read_size then (false, r) else (
  true,
  record r { tail_pos = (r.tail_pos + read_size) % r.capacity; size = r.size - read_size },
)

-- The branch of `AdjustPos` for data in one piece.
unfoldable pub adjust_straight : RingBuffer → Outcome RingBuffer
unfolding get_chunk_write_size
adjust_straight r =
    if r.head_pos == r.tail_pos
    then ok (record r { head_pos = 0; tail_pos = 0 })
    else (if ltb (get_chunk_write_size r) (r.capacity / 3)
        then (memcpy_within r.buffer 0 r.tail_pos (get_data_size r) >>= λ buffer.
            ok (record r { buffer = buffer; tail_pos = 0; head_pos = get_data_size r }))
        else ok r)

-- The branch of `AdjustPos` for data that goes round the end of the buffer.
unfoldable pub adjust_wrapped : RingBuffer → Outcome RingBuffer
adjust_wrapped r =
    let r_data_size : ℕ = r.capacity - r.tail_pos in
    let l_data_size : ℕ = r.head_pos in
    memcpy_within r.buffer r_data_size 0 l_data_size >>= λ moved.
    (memcpy_within moved 0 r.tail_pos r_data_size >>= λ buffer.
    ok (record r { buffer = buffer; tail_pos = 0; head_pos = r_data_size + l_data_size }))

unfoldable pub adjust_pos : RingBuffer → Outcome RingBuffer
unfolding adjust_straight adjust_wrapped
adjust_pos r = if leb r.tail_pos r.head_pos then adjust_straight r else adjust_wrapped r
