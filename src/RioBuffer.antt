-- ===== src/RioBuffer.antt =====
-- ServerCore/Network/RioBuffer.cpp: the ring buffer of a RIO session, with a third position between
-- the tail and the head up to which the bytes were handed to RIOSend. The memory that
-- `VirtualAllocEx` commits is filled with zeros.
pub mod Unsent
mod Tests
use rio_iocp_server.Prelude.{
  ℕ, ◌+◌, ◌-◌, ◌%◌, Bool, true, false, ltb, leb, if◌then◌else◌, replicate,
}
use rio_iocp_server.RingBuffer.{RingBuffer, make}

pub record RioBuffer : Type 0 where
  pub ring : RingBuffer
  pub send_pos : ℕ

unfoldable pub make_rio_buffer : ℕ → RioBuffer
unfolding make
make_rio_buffer buffer_size = record {
  ring = make (replicate buffer_size 0) buffer_size;
  send_pos = 0;
}

unfoldable pub get_chunk_send_size : RioBuffer → ℕ
get_chunk_send_size b =
    if leb b.send_pos b.ring.head_pos
    then b.ring.head_pos - b.send_pos
    else b.ring.capacity - b.send_pos

unfoldable pub get_send_data_size : RioBuffer → ℕ
get_send_data_size b =
    if leb b.send_pos b.ring.head_pos
    then b.ring.head_pos - b.send_pos
    else b.ring.capacity - b.send_pos + b.ring.head_pos

abbrev pub get_send_offset : RioBuffer → ℕ
get_send_offset b = b.send_pos

unfoldable pub on_send_buffer : RioBuffer → ℕ → Bool × RioBuffer
unfolding get_send_data_size
on_send_buffer b send_size =
    if ltb (get_send_data_size b) send_size
    then (false, b)
    else (true, record b { send_pos = (b.send_pos + send_size) % b.ring.capacity })
