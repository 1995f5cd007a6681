-- ===== src/NetBuffer/Tests.antt =====
-- The theorems on `_CreateNetBuffer` (RIOIOCPServer/Session/PacketHandler.h) at concrete messages.
use rio_iocp_server.Prelude.{
  ℕ, ◌≡◌, List, [], ◌∷◌, arith, length, drop, replicate, length-replicate, ok,
}
use rio_iocp_server.RingBuffer.Contents.{contents}
use rio_iocp_server.Packet.{u16_at, rio_on_recv}
use rio_iocp_server.NetBuffer.{create_net_buffer}
use rio_iocp_server.NetBuffer.RoundTrip.{on_recv-create_net_buffer}

on_recv-create_net_buffer_example :
    let sent = contents (create_net_buffer (80 ∷ 81 ∷ []) 8) in
    (rio_on_recv 9 sent (length sent) ≡ ok (sent ∷ [], length sent))
    × (u16_at sent 2 ≡ 8)
    × (drop 4 sent ≡ 80 ∷ 81 ∷ [])
on_recv-create_net_buffer_example =
    on_recv-create_net_buffer 9 (80 ∷ 81 ∷ []) 8 (omega arith) (omega arith) (omega arith)

long_message : List ℕ
long_message = replicate 65532 0

length-long_message : length long_message ≡ 65532
unfolding long_message
length-long_message = length-replicate {A = ℕ} 65532 0
