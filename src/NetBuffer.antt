-- ===== src/NetBuffer.antt =====
-- ServerCore/Network/NetBuffer.cpp, and `_CreateNetBuffer` of
-- RIOIOCPServer/Session/PacketHandler.h, which puts a message behind a packet header.
-- The message is generated protobuf code: of it the model has the bytes that `SerializeToArray`
-- writes, as many as `ByteSizeLong` says.
pub mod RoundTrip
mod Tests
use rio_iocp_server.Prelude.{ℕ, ◌+◌, ◌%◌, ◌^◌, List, length, blit, replicate}
use rio_iocp_server.RingBuffer.{RingBuffer, make, on_write_buffer}
use rio_iocp_server.Packet.{header_size, u16_bytes}

-- The constructor: `resize` fills the memory with zeros.
unfoldable pub make_net_buffer : ℕ → RingBuffer
unfolding make
make_net_buffer buffer_size = make (replicate buffer_size 0) buffer_size

-- A value cut to `unsigned short`.
abbrev pub to_u16 : ℕ → ℕ
to_u16 n = n % 2 ^ 16

-- `header->id = pktId; header->size = packetSize;`, then the message behind the header.
unfoldable pub fill_packet : List ℕ → ℕ → ℕ → List ℕ → List ℕ
fill_packet buffer pkt_id packet_size message =
    blit (blit (blit buffer 2 (u16_bytes (to_u16 pkt_id))) 0 (u16_bytes (to_u16 packet_size)))
      header_size message

unfoldable pub create_net_buffer : List ℕ → ℕ → RingBuffer
unfolding make_net_buffer fill_packet on_write_buffer
create_net_buffer message pkt_id =
    let packet_size : ℕ = length message + header_size in
    let net_buffer = make_net_buffer packet_size in
    let filled = record net_buffer {
      buffer = fill_packet net_buffer.buffer pkt_id packet_size message;
    } in
    (on_write_buffer filled packet_size).1
