-- ===== src/RioSession/Receive/Delivery.antt =====
-- `ProcessRecv` of RioSession.cpp: which packets reach `OnRecvPacket`.
use rio_iocp_server.Prelude.{
  ℕ, ◌+◌, ◌/◌, ◌≤◌, ◌<◌, ◌≡◌, refl, sym, ap, ◌∙◌, List, [], ◌∷◌, ◌++◌, true, arith, length, flatten,
  ok, append_assoc, append-nil, ge→ltb, lt→==_false, subst,
}
use rio_iocp_server.RingBuffer.{RingBuffer, get_chunk_write_size, adjust_pos, on_read_buffer}
use rio_iocp_server.RingBuffer.Contents.{contents}
use rio_iocp_server.RioBuffer.{RioBuffer}
use rio_iocp_server.Packet.Framing.{Framed}
use rio_iocp_server.RioSession.Defs.{
  RioSession, World, Call, recv_packet, packets_of, logged, virtual_call, connected,
}
use rio_iocp_server.RioSession.Connection.{register_recv}
use rio_iocp_server.RioSession.Connection.Kept.{Kept, IsQuiet, register_recv_Kept}
use rio_iocp_server.RioSession.Receive.{
  with_recv_ring, arrive, deliver_packets, finish_recv, process_recv,
}
use rio_iocp_server.RioSession.Receive.Stream.{
  IsReady, arrived, counted, parsed, read, consumed, sizes, adjusted,
}

-- The bodies of the virtual methods leave the receive buffer alone, and deliver no packets
-- themselves.
pub record KeepsReceiving (world : World) : Type 0 where
  pub keeps_buffer : (c : Call) (s : RioSession) → (world.on_call c s).recv_buffer ≡ s.recv_buffer
  pub keeps_packets :
      (c : Call) (s : RioSession) → packets_of (world.on_call c s).log ≡ packets_of s.log

packets_of-append :
    (log log' : List Call) → packets_of (log ++ log') ≡ packets_of log ++ packets_of log'
unfolding packets_of
packets_of-append [] log' = refl
packets_of-append (recv_packet p ∷ log) log' = ap (λ l. p ∷ l) (packets_of-append log log')
packets_of-append (connected ∷ log) log' = packets_of-append log log'
packets_of-append (_ ∷ log) log' = packets_of-append log log'

-- What the calls of a session must keep on the receive path.
pub record SameReceiving (s s' : RioSession) : Type 0 where
  pub same_buffer : s'.recv_buffer ≡ s.recv_buffer
  pub same_packets : packets_of s'.log ≡ packets_of s.log

quiet_has_none : (c : Call) → IsQuiet c → packets_of (c ∷ []) ≡ []
unfolding packets_of
quiet_has_none (recv_packet p) h = absurd h
quiet_has_none connected h = refl
quiet_has_none _ h = refl

receiving_Kept : (world : World) → KeepsReceiving world → Kept world SameReceiving
receiving_Kept world keeps = record {
  self = λ s. record { same_buffer = refl; same_packets = refl };
  trans = λ s t u p q. record {
    same_buffer = q.same_buffer ∙ p.same_buffer;
    same_packets = q.same_packets ∙ p.same_packets;
  };
  quiet = λ c s h. record {
    same_buffer = refl;
    same_packets =
        packets_of-append s.log (c ∷ [])
        ∙ ap (λ l. packets_of s.log ++ l) (quiet_has_none c h)
        ∙ append-nil (packets_of s.log);
  };
  called = λ c s. record {
    same_buffer = keeps.keeps_buffer c s;
    same_packets = keeps.keeps_packets c s;
  };
  down = λ s. record { same_buffer = refl; same_packets = refl };
}

module _ (world : World) (keeps : KeepsReceiving world) where
  virtual_call-packets :
      (c : Call) (s : RioSession)
      → packets_of (virtual_call world c s).log ≡ packets_of s.log ++ packets_of (c ∷ [])
  virtual_call-packets c s = keeps.keeps_packets c (logged c s) ∙ packets_of-append s.log (c ∷ [])

  deliver_packets_lem :
      (packets : List (List ℕ)) (s : RioSession)
      → ((deliver_packets world packets s).recv_buffer ≡ s.recv_buffer)
        × (packets_of (deliver_packets world packets s).log ≡ packets_of s.log ++ packets)
  unfolding deliver_packets packets_of
  deliver_packets_lem [] s = (refl, sym (append-nil (packets_of s.log)))
  deliver_packets_lem (p ∷ packets) s =
      let s' = virtual_call world (recv_packet p) s in
      let rest = deliver_packets_lem packets s' in
      (
        rest.0 ∙ keeps.keeps_buffer (recv_packet p) (logged (recv_packet p) s),
        rest.1
            ∙ ap (λ l. l ++ packets) (virtual_call-packets (recv_packet p) s)
            ∙ append_assoc (packets_of s.log) (p ∷ []) packets,
      )

  -- `ProcessRecv` up to the call of `OnRecv`.
  process_recv_parsed :
      (fuel : ℕ) (s : RioSession) (xs : List ℕ) (packets : List (List ℕ)) (rest : List ℕ)
      → IsReady s.recv_buffer.ring
      → 0 < length xs
      → length xs ≤ get_chunk_write_size s.recv_buffer.ring
      → Framed (contents s.recv_buffer.ring ++ xs) packets rest
      → s.recv_buffer.ring.capacity < fuel
      → process_recv world fuel (length xs) (arrive xs s)
        ≡ finish_recv world
            (s.recv_buffer.ring.size + length xs)
            (length (flatten packets))
            (deliver_packets world packets (with_recv_ring s (arrived s.recv_buffer.ring xs)))
  unfolding process_recv
  process_recv_parsed fuel s xs packets rest ready some_bytes fits framed f = rw (
    lt→==_false (length xs) some_bytes,
    counted s.recv_buffer.ring xs ready fits,
    parsed s.recv_buffer.ring xs ready fits packets rest framed fuel f,
  )

  -- `ProcessRecv` from the return of `OnRecv` on.
  finish_recv_adjusted :
      (d : RioSession) (r : RingBuffer) (data_size process_len : ℕ) (q r' : RingBuffer)
      → d.recv_buffer.ring ≡ r
      → process_len ≤ data_size
      → on_read_buffer r process_len ≡ (true, q)
      → adjust_pos q ≡ ok r'
      → finish_recv world data_size process_len d ≡ ok (register_recv world (with_recv_ring d r'))
  unfolding finish_recv
  finish_recv_adjusted d r data_size process_len q r' same le reads adjusts =
      rw (same, reads, ge→ltb data_size process_len le, adjusts)

  -- When the virtual methods leave the receive buffer alone and deliver no packets themselves: a
  -- receive of at least one byte into the chunk that `RegisterRecv` names, on a ready buffer, when the
  -- bytes held and the bytes received are whole packets and at most a third of the buffer of an
  -- incomplete one, with more rounds than the buffer has bytes. `ProcessRecv` returns, `OnRecvPacket`
  -- gets exactly those packets in order, and the buffer is ready, has the same capacity and holds the
  -- incomplete packet.
  pub process_recv_lem :
      (fuel : ℕ) (s : RioSession) (xs : List ℕ) (packets : List (List ℕ)) (rest : List ℕ)
      → IsReady s.recv_buffer.ring
      → 0 < length xs
      → length xs ≤ get_chunk_write_size s.recv_buffer.ring
      → Framed (contents s.recv_buffer.ring ++ xs) packets rest
      → length rest ≤ s.recv_buffer.ring.capacity / 3
      → s.recv_buffer.ring.capacity < fuel
      → (s' : RioSession) × (process_recv world fuel (length xs) (arrive xs s) ≡ ok s')
        × IsReady s'.recv_buffer.ring
        × (contents s'.recv_buffer.ring ≡ rest)
        × (s'.recv_buffer.ring.capacity ≡ s.recv_buffer.ring.capacity)
        × (packets_of s'.log ≡ packets_of s.log ++ packets)
  process_recv_lem fuel s xs packets rest ready some_bytes fits framed short f =
      let r = s.recv_buffer.ring in
      let d = deliver_packets world packets (with_recv_ring s (arrived r xs)) in
      let delivered = deliver_packets_lem packets (with_recv_ring s (arrived r xs)) in
      let (r', adjusts, ready', bytes, same_capacity) =
        adjusted r xs ready fits packets rest framed short in
      let registered =
        register_recv_Kept world SameReceiving (receiving_Kept world keeps) (with_recv_ring d r') in
      let ring' = ap (λ (b : RioBuffer). b.ring) registered.same_buffer in
      (
        register_recv world (with_recv_ring d r'),
        process_recv_parsed fuel s xs packets rest ready some_bytes fits framed f
            ∙ finish_recv_adjusted d (arrived r xs) (r.size + length xs) (length (flatten packets))
                (consumed r xs ready fits packets rest framed) r'
                (ap (λ (b : RioBuffer). b.ring) delivered.0)
                (omega (arith, sizes r xs ready fits packets rest framed))
                (read r xs ready fits packets rest framed) adjusts,
        subst IsReady (sym ring') ready',
        ap contents ring' ∙ bytes,
        ap (λ (q : RingBuffer). q.capacity) ring' ∙ same_capacity,
        registered.same_packets ∙ delivered.1,
      )
