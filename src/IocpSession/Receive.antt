-- ===== src/IocpSession/Receive.antt =====
-- `ProcessRecv` of IocpSession.cpp: which packets reach `OnRecvPacket`.
use rio_iocp_server.Prelude.{
  ℕ, ◌+◌, ◌/◌, ◌≤◌, ◌<◌, ◌≡◌, refl, sym, ap, ◌∙◌, true, List, [], ◌∷◌, ◌++◌, arith, length, flatten,
  if◌then◌else◌, if_lem, not, ok, append_assoc, append-nil, ge→ltb, lt→==_false, subst,
}
use rio_iocp_server.RingBuffer.{
  RingBuffer, get_chunk_write_size, get_write_offset, adjust_pos, on_read_buffer,
}
use rio_iocp_server.RingBuffer.Contents.{contents}
use rio_iocp_server.RingBuffer.Write.{received}
use rio_iocp_server.Packet.Framing.{Framed}
use rio_iocp_server.RioSession.Receive.Stream.{
  IsReady, arrived, counted, parsed_by_iocp, read, consumed, sizes, adjusted,
}
use rio_iocp_server.IocpSession.{
  IocpSession, IocpWorld, Call, recv_packet, wsa_recv, error, logged, virtual_call, register_recv,
  deliver_packets, finish_recv, process_recv,
}

-- The packets given to `OnRecvPacket`, in order.
unfoldable pub packets_of : List Call → List (List ℕ)
packets_of [] = []
packets_of (recv_packet p ∷ log) = p ∷ packets_of log
packets_of (c ∷ log) = packets_of log

-- The bodies of the virtual methods leave the receive buffer alone, and deliver no packets
-- themselves.
pub record KeepsReceiving (world : IocpWorld) : Type 0 where
  pub keeps_buffer : (c : Call) (s : IocpSession) → (world.on_call c s).recv_buffer ≡ s.recv_buffer
  pub keeps_packets :
      (c : Call) (s : IocpSession) → packets_of (world.on_call c s).log ≡ packets_of s.log

packets_of-append :
    (log log' : List Call) → packets_of (log ++ log') ≡ packets_of log ++ packets_of log'
unfolding packets_of
packets_of-append [] log' = refl
packets_of-append (recv_packet p ∷ log) log' = ap (λ l. p ∷ l) (packets_of-append log log')
packets_of-append (_ ∷ log) log' = packets_of-append log log'

-- The completion of a receive: the bytes `xs` came into the chunk that the request named.
abbrev pub arrive : List ℕ → IocpSession → IocpSession
arrive xs s = record s { recv_buffer = received s.recv_buffer xs }

quietly :
    (c : Call) (s : IocpSession)
    → packets_of (c ∷ []) ≡ []
    → packets_of (logged c s).log ≡ packets_of s.log
quietly c s h =
    packets_of-append s.log (c ∷ [])
    ∙ ap (λ l. packets_of s.log ++ l) h
    ∙ append-nil (packets_of s.log)

-- `RegisterRecv` leaves the receive path alone.
record SameReceiving (s s' : IocpSession) : Type 0 where
  same_buffer : s'.recv_buffer ≡ s.recv_buffer
  same_packets : packets_of s'.log ≡ packets_of s.log

register_recv-same : (world : IocpWorld) (s : IocpSession) → SameReceiving s (register_recv world s)
unfolding register_recv packets_of
register_recv-same world s =
    let asks = wsa_recv (get_write_offset s.recv_buffer) (get_chunk_write_size s.recv_buffer) in
    let posted = logged asks s in
    if_lem (SameReceiving s) (not s.is_connected) s
      (if world.starts_recv s then posted else logged error posted)
      (λ down. record { same_buffer = refl; same_packets = refl })
      (λ up.
        if_lem (SameReceiving s) (world.starts_recv s) posted (logged error posted)
          (λ starts. record { same_buffer = refl; same_packets = quietly asks s refl })
          (λ fails. record {
            same_buffer = refl;
            same_packets = quietly error posted refl ∙ quietly asks s refl;
          }))

module _ (world : IocpWorld) (keeps : KeepsReceiving world) where
  deliver_packets_lem :
      (packets : List (List ℕ)) (s : IocpSession)
      → ((deliver_packets world packets s).recv_buffer ≡ s.recv_buffer)
        × (packets_of (deliver_packets world packets s).log ≡ packets_of s.log ++ packets)
  unfolding deliver_packets packets_of
  deliver_packets_lem [] s = (refl, sym (append-nil (packets_of s.log)))
  deliver_packets_lem (p ∷ packets) s =
      let s' = virtual_call world (recv_packet p) s in
      let rest = deliver_packets_lem packets s' in
      (
        rest.0 ∙ keeps.keeps_buffer (recv_packet p) (logged (recv_packet p) s),
        rest.1
            ∙ ap (λ l. l ++ packets)
                (keeps.keeps_packets (recv_packet p) (logged (recv_packet p) s)
                  ∙ packets_of-append s.log (recv_packet p ∷ []))
            ∙ append_assoc (packets_of s.log) (p ∷ []) packets,
      )

  -- `ProcessRecv` from the return of `OnRecv` on.
  finish_recv-adjusted :
      (d : IocpSession) (r : RingBuffer) (data_size process_len : ℕ) (q r' : RingBuffer)
      → d.recv_buffer ≡ r
      → process_len ≤ data_size
      → on_read_buffer r process_len ≡ (true, q)
      → adjust_pos q ≡ ok r'
      → finish_recv world data_size process_len d
        ≡ ok (register_recv world (record d { recv_buffer = r' }))
  unfolding finish_recv
  finish_recv-adjusted d r data_size process_len q r' same le reads adjusts =
      rw (same, reads, ge→ltb data_size process_len le, adjusts)

  -- `ProcessRecv` up to the call of `OnRecv`.
  process_recv-parsed :
      (fuel : ℕ) (s : IocpSession) (xs : List ℕ) (packets : List (List ℕ)) (rest : List ℕ)
      → IsReady s.recv_buffer
      → 0 < length xs
      → length xs ≤ get_chunk_write_size s.recv_buffer
      → Framed (contents s.recv_buffer ++ xs) packets rest
      → s.recv_buffer.capacity < fuel
      → process_recv world fuel (length xs) (arrive xs s)
        ≡ finish_recv world
            (s.recv_buffer.size + length xs)
            (length (flatten packets))
            (deliver_packets world packets (record s { recv_buffer = arrived s.recv_buffer xs }))
  unfolding process_recv
  process_recv-parsed fuel s xs packets rest ready some_bytes fits framed f = rw (
    lt→==_false (length xs) some_bytes,
    counted s.recv_buffer xs ready fits,
    parsed_by_iocp s.recv_buffer xs ready fits packets rest framed fuel f,
  )

  -- When the virtual methods leave the receive buffer alone and deliver no packets themselves: a
  -- receive of at least one byte into the chunk that `RegisterRecv` names, on a ready buffer, when the
  -- bytes held and the bytes received are whole packets and at most a third of the buffer of an
  -- incomplete one, with more rounds than the buffer has bytes. `ProcessRecv` of an IOCP session
  -- returns, `OnRecvPacket` gets exactly those packets in order, and the buffer is ready, has the same
  -- capacity and holds the incomplete packet.
  pub process_recv-delivers :
      (fuel : ℕ) (s : IocpSession) (xs : List ℕ) (packets : List (List ℕ)) (rest : List ℕ)
      → IsReady s.recv_buffer
      → 0 < length xs
      → length xs ≤ get_chunk_write_size s.recv_buffer
      → Framed (contents s.recv_buffer ++ xs) packets rest
      → length rest ≤ s.recv_buffer.capacity / 3
      → s.recv_buffer.capacity < fuel
      → (s' : IocpSession) × (process_recv world fuel (length xs) (arrive xs s) ≡ ok s')
        × IsReady s'.recv_buffer
        × (contents s'.recv_buffer ≡ rest)
        × (s'.recv_buffer.capacity ≡ s.recv_buffer.capacity)
        × (packets_of s'.log ≡ packets_of s.log ++ packets)
  process_recv-delivers fuel s xs packets rest ready some_bytes fits framed short f =
      let r = s.recv_buffer in
      let begun = record s { recv_buffer = arrived r xs } in
      let d = deliver_packets world packets begun in
      let delivered = deliver_packets_lem packets begun in
      let (r', adjusts, ready', bytes, same_capacity) =
        adjusted r xs ready fits packets rest framed short in
      let posted = register_recv-same world (record d { recv_buffer = r' }) in
      (
        register_recv world (record d { recv_buffer = r' }),
        process_recv-parsed fuel s xs packets rest ready some_bytes fits framed f
            ∙ finish_recv-adjusted d (arrived r xs) (r.size + length xs) (length (flatten packets))
                (consumed r xs ready fits packets rest framed) r' delivered.0
                (omega (arith, sizes r xs ready fits packets rest framed))
                (read r xs ready fits packets rest framed) adjusts,
        subst IsReady (sym posted.same_buffer) ready',
        ap contents posted.same_buffer ∙ bytes,
        ap (λ (q : RingBuffer). q.capacity) posted.same_buffer ∙ same_capacity,
        posted.same_packets ∙ delivered.1,
      )
