-- ===== src/NetBuffer/RoundTrip.antt =====
-- `_CreateNetBuffer` (RIOIOCPServer/Session/PacketHandler.h) and what `OnRecv` makes of its buffers.
use rio_iocp_server.Prelude.{
  ℕ, suc, ◌+◌, ◌%◌, ◌^◌, ◌≤◌, ◌<◌, ◌≡◌, refl, sym, ap, ◌∙◌, inl, List, [], ◌∷◌, ◌++◌, arith, length,
  take, drop, blit, replicate, ok, length-replicate, take-length, append-nil, blit-nil, flatten,
}
use rio_iocp_server.RingBuffer.{make, on_write_buffer}
use rio_iocp_server.RingBuffer.Contents.{contents, cells-slice}
use rio_iocp_server.Packet.{header_size, u16_bytes, u16_at, rio_on_recv}
use rio_iocp_server.Packet.Framing.{IsPacket, Framed}
use rio_iocp_server.Packet.OnRecv.{on_recv_lem}
use rio_iocp_server.NetBuffer.{make_net_buffer, fill_packet, to_u16, create_net_buffer}

-- The bytes of a packet: its size, its id, the message.
abbrev pub packet_bytes : List ℕ → ℕ → List ℕ
packet_bytes message pkt_id =
    u16_bytes (to_u16 (length message + header_size)) ++ (u16_bytes (to_u16 pkt_id) ++ message)

blit_all : (buffer xs : List ℕ) → length buffer ≡ length xs → blit buffer 0 xs ≡ xs
unfolding blit
blit_all [] [] e = refl
blit_all [] (x ∷ xs) e = absurd (omega arith)
blit_all (b ∷ buffer) [] e = absurd (omega arith)
blit_all (b ∷ buffer) (x ∷ xs) e = ap (λ l. x ∷ l) (blit_all buffer xs (omega arith))

length-packet_bytes :
    (message : List ℕ) (pkt_id : ℕ)
    → length (packet_bytes message pkt_id) ≡ length message + header_size
length-packet_bytes message pkt_id = omega arith

-- The filled memory.
fill_packet_lem :
    (message : List ℕ) (pkt_id : ℕ)
    → fill_packet
        (replicate (length message + header_size) 0)
        pkt_id
        (length message + header_size)
        message
      ≡ packet_bytes message pkt_id
unfolding fill_packet blit
fill_packet_lem message pkt_id =
    rw (four, blit-nil (replicate {A = ℕ} (length message) 0) 0)
      (ap
        (λ l.
          u16_bytes (to_u16 (suc (suc (suc (suc (length message))))))
          ++ (u16_bytes (to_u16 pkt_id) ++ l))
        (blit_all (replicate (length message) 0) message (length-replicate (length message) 0)))
  where
    four : length message + header_size ≡ suc (suc (suc (suc (length message))))
    four = omega arith

-- `_CreateNetBuffer` as one record.
create_net_buffer_lem :
    (message : List ℕ) (pkt_id : ℕ)
    → create_net_buffer message pkt_id ≡ record {
      capacity = length message + header_size;
      size = length message + header_size;
      buffer = packet_bytes message pkt_id;
      head_pos = (length message + header_size) % (length message + header_size);
      tail_pos = 0;
    }
unfolding create_net_buffer make_net_buffer make on_write_buffer
create_net_buffer_lem message pkt_id = ground (arith, fill_packet_lem message pkt_id)

-- `_CreateNetBuffer` fills its buffer: what the session sends from it is the size, the id and the
-- message, and nothing else.
pub contents-create_net_buffer :
    (message : List ℕ) (pkt_id : ℕ)
    → (contents (create_net_buffer message pkt_id) ≡ packet_bytes message pkt_id)
      × ((create_net_buffer message pkt_id).size ≡ length message + header_size)
contents-create_net_buffer message pkt_id = rw (create_net_buffer_lem message pkt_id) (
  sym (
        cells-slice (packet_bytes message pkt_id) n 0 n (length-packet_bytes message pkt_id)
          (omega arith))
      ∙ take-length n (packet_bytes message pkt_id)
          (omega (arith, length-packet_bytes message pkt_id)),
  refl,
)
  where
    n : ℕ
    n = length message + header_size

-- The packet sent says its own length, unless it has 2 ^ 16 bytes or more.
packet_bytes-IsPacket :
    (message : List ℕ) (pkt_id : ℕ)
    → length message + header_size < 2 ^ 16
    → IsPacket (packet_bytes message pkt_id)
packet_bytes-IsPacket message pkt_id h = omega arith

-- A message of fewer than 2 ^ 16 - 4 bytes, sent by `_CreateNetBuffer` and received whole: `OnRecv`
-- calls `OnRecvPacket` once, with the packet whose id and message were sent, and takes all of it.
pub on_recv-create_net_buffer :
    (fuel : ℕ) (message : List ℕ) (pkt_id : ℕ)
    → length message + header_size < 2 ^ 16
    → pkt_id < 2 ^ 16
    → length message + header_size < fuel
    → let sent = contents (create_net_buffer message pkt_id) in
      (rio_on_recv fuel sent (length sent) ≡ ok (sent ∷ [], length sent))
      × (u16_at sent 2 ≡ pkt_id)
      × (drop header_size sent ≡ message)
unfolding flatten
on_recv-create_net_buffer fuel message pkt_id h i f =
    rw (contents-create_net_buffer message pkt_id).0 (whole, omega arith, refl)
  where
    sent : List ℕ
    sent = packet_bytes message pkt_id

    framed : Framed (take (length sent) sent) (sent ∷ []) []
    framed = record {
      parts =
          take-length (length sent) sent (omega arith)
          ∙ sym (append-nil sent)
          ∙ sym (append-nil (sent ++ []));
      packets_whole = (packet_bytes-IsPacket message pkt_id h, tt);
      rest_partial = inl (omega arith);
    }

    whole : rio_on_recv fuel sent (length sent) ≡ ok (sent ∷ [], length sent)
    whole =
        (on_recv_lem fuel sent (length sent) (sent ∷ []) [] (omega arith) framed
          (omega (arith, length-packet_bytes message pkt_id))).0
        ∙ ap (λ l. ok (sent ∷ [], length l)) (append-nil sent)

-- A message of 2 ^ 16 - 4 bytes or more goes out under a header that says less than its length.
pub create_net_buffer-truncates :
    (message : List ℕ) (pkt_id : ℕ)
    → 2 ^ 16 ≤ length message + header_size
    → let sent = contents (create_net_buffer message pkt_id) in u16_at sent 0 < length sent
create_net_buffer-truncates message pkt_id h =
    rw (contents-create_net_buffer message pkt_id).0 (omega arith)
