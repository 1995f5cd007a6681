-- ===== src/RioSession/Receive/History.antt =====
-- Any number of receives of a RioSession (RioSession.cpp), however the network cuts the stream.
use rio_iocp_server.Prelude.{
  ℕ, ◌/◌, ◌≤◌, ◌<◌, ◌≡◌, sym, ap, ◌∙◌, subst, List, [], ◌∷◌, ◌++◌, arith, length, length-append,
  All, flatten, ok, append_assoc, append-nil,
}
use rio_iocp_server.RingBuffer.{get_chunk_write_size}
use rio_iocp_server.RingBuffer.Contents.{contents}
use rio_iocp_server.Packet.{u16_at}
use rio_iocp_server.Packet.Framing.{Framed, IsPartial, u16_at-append}
use rio_iocp_server.Packet.Prefix.{cut_lem}
use rio_iocp_server.RioSession.Defs.{RioSession, World, packets_of}
use rio_iocp_server.RioSession.Receive.{arrive, process_recv}
use rio_iocp_server.RioSession.Receive.Stream.{IsReady}
use rio_iocp_server.RioSession.Receive.Delivery.{KeepsReceiving, process_recv_lem}

-- An incomplete packet contains no whole one.
partial_has_none :
    (bytes p : List ℕ) (packets : List (List ℕ)) (rest : List ℕ)
    → IsPartial bytes
    → Framed bytes (p ∷ packets) rest
    → ⊥
unfolding flatten
partial_has_none bytes p packets rest partial framed = omega (
  arith,
  partial,
  framed.packets_whole.0,
  ap length cut,
  length-append p (flatten packets ++ rest),
  ap (λ l. u16_at l 0) cut,
  u16_at-append p (flatten packets ++ rest),
)
  where
    cut : bytes ≡ p ++ (flatten packets ++ rest)
    cut = framed.parts ∙ append_assoc p (flatten packets) rest

-- Receives that complete one after another, each with at least one byte, into the chunk that
-- `RegisterRecv` named.
pub data Receives (world : World) (fuel : ℕ)
    : RioSession → List (List ℕ) → RioSession → Type 0 where
  nothing : {s : RioSession} → Receives world fuel s [] s
  next :
      {s s' t : RioSession} {xs : List ℕ} {xss : List (List ℕ)}
      → 0 < length xs
      → length xs ≤ get_chunk_write_size s.recv_buffer.ring
      → process_recv world fuel (length xs) (arrive xs s) ≡ ok s'
      → Receives world fuel s' xss t
      → Receives world fuel s (xs ∷ xss) t

module _ (world : World) (keeps : KeepsReceiving world) (fuel : ℕ) where
  -- `process_recv_lem` for the session that a receive is known to lead to.
  one_receive :
      (s s' : RioSession) (xs : List ℕ) (packets : List (List ℕ)) (rest : List ℕ)
      → process_recv world fuel (length xs) (arrive xs s) ≡ ok s'
      → IsReady s.recv_buffer.ring
      → 0 < length xs
      → length xs ≤ get_chunk_write_size s.recv_buffer.ring
      → Framed (contents s.recv_buffer.ring ++ xs) packets rest
      → length rest ≤ s.recv_buffer.ring.capacity / 3
      → s.recv_buffer.ring.capacity < fuel
      → IsReady s'.recv_buffer.ring
        × (contents s'.recv_buffer.ring ≡ rest)
        × (s'.recv_buffer.ring.capacity ≡ s.recv_buffer.ring.capacity)
        × (packets_of s'.log ≡ packets_of s.log ++ packets)
  one_receive s s' xs packets rest runs ready some_bytes fits framed short f =
      let (u, runs', ready', bytes, capacity', delivered) =
        process_recv_lem world keeps fuel s xs packets rest ready some_bytes fits framed short f in
      let same : u ≡ s' = cc in
      (
        subst (λ q. IsReady q.recv_buffer.ring) same ready',
        ap (λ (q : RioSession). contents q.recv_buffer.ring) (sym same) ∙ bytes,
        ap (λ (q : RioSession). q.recv_buffer.ring.capacity) (sym same) ∙ capacity',
        ap (λ (q : RioSession). packets_of q.log) (sym same) ∙ delivered,
      )

  -- When the virtual methods leave the receive buffer alone and deliver no packets themselves, from a
  -- ready buffer that holds at most an incomplete packet, when the bytes held and all the bytes
  -- received are together whole packets and an incomplete one, each of at most a third of the buffer,
  -- with more rounds than the buffer has bytes: however the stream is cut into receives of at least
  -- one byte, `OnRecvPacket` gets exactly those packets in order, and the buffer is ready and holds
  -- the incomplete packet.
  pub receives_lem :
      {s t : RioSession} {xss : List (List ℕ)} (packets : List (List ℕ)) (rest : List ℕ)
      → Receives world fuel s xss t
      → IsReady s.recv_buffer.ring
      → IsPartial (contents s.recv_buffer.ring)
      → Framed (contents s.recv_buffer.ring ++ flatten xss) packets rest
      → All (λ p. length p ≤ s.recv_buffer.ring.capacity / 3) packets
      → length rest ≤ s.recv_buffer.ring.capacity / 3
      → s.recv_buffer.ring.capacity < fuel
      → (packets_of t.log ≡ packets_of s.log ++ packets)
        × (contents t.recv_buffer.ring ≡ rest)
        × IsReady t.recv_buffer.ring
  unfolding flatten
  receives_lem {s} [] rest nothing ready partial framed small short f = (
    sym (append-nil (packets_of s.log)),
    sym (append-nil (contents s.recv_buffer.ring)) ∙ framed.parts,
    ready,
  )
  receives_lem {s} (p ∷ packets) rest nothing ready partial framed small short f = absurd (
      partial_has_none (contents s.recv_buffer.ring) p packets rest partial (
        subst (λ l. Framed l (p ∷ packets) rest) (append-nil (contents s.recv_buffer.ring)) framed))
  receives_lem packets rest (next {s} {s'} {t} {xs} {xss} some_bytes fits runs more) ready partial
        framed small short f =
      let cut = cut_lem packets (contents s.recv_buffer.ring ++ xs) (flatten xss) rest (
        subst (λ l. Framed l packets rest)
          (sym (append_assoc (contents s.recv_buffer.ring) xs (flatten xss))) framed) in
      let third = s.recv_buffer.ring.capacity / 3 in
      let (ready', bytes, capacity', delivered) =
        one_receive s s' xs cut.first cut.between runs ready some_bytes fits cut.before
          (cut.bounded third small short) f in
      let (packets', rest', ready'') =
        receives_lem cut.second rest more ready'
          (subst IsPartial (sym bytes) cut.before.rest_partial)
          (subst (λ l. Framed (l ++ flatten xss) cut.second rest) (sym bytes) cut.behind)
          (subst (λ c. All (λ p. length p ≤ c / 3) cut.second) (sym capacity')
            (cut.bounded_second third small))
          (subst (λ c. length rest ≤ c / 3) (sym capacity') short)
          (subst (λ c. c < fuel) (sym capacity') f) in
      (
        packets'
            ∙ ap (λ l. l ++ cut.second) delivered
            ∙ append_assoc (packets_of s.log) cut.first cut.second
            ∙ ap (λ l. packets_of s.log ++ l) (sym cut.together),
        rest',
        ready'',
      )
