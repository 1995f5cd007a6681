-- ===== src/Packet/Tests.antt =====
-- Runs of `OnRecv` (RioSession.cpp, IocpSession.cpp), and its theorems at concrete bytes.
use rio_iocp_server.Prelude.{ℕ, ◌≡◌, refl, inl, List, [], ◌∷◌, arith, flatten, ok}
use rio_iocp_server.Packet.{read_header, rio_loop, rio_on_recv, iocp_on_recv}
use rio_iocp_server.Packet.Framing.{Framed}
use rio_iocp_server.Packet.OnRecv.{on_recv_lem}

-- Two packets, and one byte of a third.
abbrev two_packets : List ℕ
two_packets = 5 ∷ 0 ∷ 9 ∷ 0 ∷ 77 ∷ 4 ∷ 0 ∷ 11 ∷ 0 ∷ 6 ∷ []

abbrev move_packet : List ℕ
move_packet = 5 ∷ 0 ∷ 9 ∷ 0 ∷ 77 ∷ []

abbrev chat_packet : List ℕ
chat_packet = 4 ∷ 0 ∷ 11 ∷ 0 ∷ []

rio_on_recv-two_packets : rio_on_recv 20 two_packets 10 ≡ ok (move_packet ∷ chat_packet ∷ [], 9)
unfolding rio_on_recv rio_loop read_header
rio_on_recv-two_packets = refl

two_packets-Framed : Framed two_packets (move_packet ∷ chat_packet ∷ []) (6 ∷ [])
unfolding flatten
two_packets-Framed = record {
  parts = refl;
  packets_whole = (
    record { whole = omega arith; sized = refl },
    (record { whole = omega arith; sized = refl }, tt),
  );
  rest_partial = inl (omega arith);
}

on_recv_lem_example :
    (rio_on_recv 20 two_packets 10 ≡ ok (move_packet ∷ chat_packet ∷ [], 9))
    × (iocp_on_recv 20 two_packets 10 ≡ ok (move_packet ∷ chat_packet ∷ [], 9))
unfolding flatten
on_recv_lem_example =
    on_recv_lem 20 two_packets 10 (move_packet ∷ chat_packet ∷ []) (6 ∷ []) (omega arith)
      two_packets-Framed (omega arith)
