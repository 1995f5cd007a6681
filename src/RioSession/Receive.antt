-- ===== src/RioSession/Receive.antt =====
-- `ProcessRecv` and `ProcessSend` of RioSession.cpp.
pub mod Stream
pub mod Delivery
pub mod History
use rio_iocp_server.Prelude.{
  ℕ, Bool, true, false, List, [], ◌∷◌, ◌++◌, if◌then◌else◌, Outcome, ok, ◌>>=◌, ltb, ◌==◌, ◌||◌,
  not, drop, length,
}
use rio_iocp_server.RingBuffer.{RingBuffer, on_write_buffer, on_read_buffer, adjust_pos}
use rio_iocp_server.RingBuffer.Write.{received}
use rio_iocp_server.Packet.{rio_on_recv}
use rio_iocp_server.RioSession.Defs.{
  RioSession, World, Call, recv_packet, sent_done, logged, virtual_call,
}
use rio_iocp_server.RioSession.Connection.{fail, register_recv}

abbrev pub with_recv_ring : RioSession → RingBuffer → RioSession
with_recv_ring s ring = record s { recv_buffer = record (s.recv_buffer) { ring = ring } }

-- The completion of a receive: the bytes `xs` came into the chunk that the request named.
abbrev pub arrive : List ℕ → RioSession → RioSession
arrive xs s = with_recv_ring s (received s.recv_buffer.ring xs)

module _ (world : World) where
  -- The calls of `OnRecvPacket` in `OnRecv`.
  unfoldable pub deliver_packets : List (List ℕ) → RioSession → RioSession
  deliver_packets [] s = s
  deliver_packets (p ∷ packets) s = deliver_packets packets (virtual_call world (recv_packet p) s)

  -- The end of `ProcessRecv`, when `OnRecv` has returned `process_len`.
  unfoldable pub finish_recv : ℕ → ℕ → RioSession → Outcome RioSession
  finish_recv data_size process_len s =
      let (read, ring) = on_read_buffer s.recv_buffer.ring process_len in
      let adjusted =
        adjust_pos ring >>= λ ring'. ok (register_recv world (with_recv_ring s ring')) in
      if ltb data_size process_len || not read then ok (fail world s) else adjusted

  -- `ProcessRecv`
  unfoldable pub process_recv : ℕ → ℕ → RioSession → Outcome RioSession
  process_recv fuel bytes_transferred s =
      let (fits, ring) = on_write_buffer s.recv_buffer.ring bytes_transferred in
      let parsed =
        rio_on_recv fuel (drop ring.tail_pos ring.buffer) ring.size >>= λ (packets, process_len).
        finish_recv ring.size process_len (deliver_packets packets (with_recv_ring s ring)) in
      if bytes_transferred == 0
      then ok (fail world s)
      else (if not fits then ok (fail world s) else parsed)

  -- `ProcessSend`
  unfoldable pub process_send : ℕ → RioSession → RioSession
  process_send bytes_transferred s =
      let s' = virtual_call world (sent_done bytes_transferred) s in
      let (read, ring) = on_read_buffer s'.send_buffer.ring bytes_transferred in
      if bytes_transferred == 0
      then fail world s
      else (if not read
          then fail world s'
          else record s' { send_buffer = record (s'.send_buffer) { ring = ring } })
