-- ===== src/Packet/OnRecv.antt =====
-- `OnRecv` of RioSession.cpp and IocpSession.cpp against the stream of packets.
use rio_iocp_server.Prelude.{
  ℕ, zero, suc, ◌+◌, ◌-◌, ◌≤◌, ◌<◌, ◌≡◌, refl, sym, ap, ◌∙◌, inl, inr, List, [], ◌∷◌, ◌++◌, arith,
  length, take, flatten, ok, running, leb, lt→leb_false, Bool-cases, lt→ltb, ge→ltb, le→leb,
  length-append, append_assoc, subst,
}
use rio_iocp_server.Memory.{slice, length-slice, slice-prefix, slice-suffix}
use rio_iocp_server.Packet.{
  header_size, u16_at, read_header, rio_loop, rio_on_recv, iocp_loop, iocp_on_recv,
}
use rio_iocp_server.Packet.Framing.{IsPacket, IsPartial, Framed, u16_at-slice}

read_header_lem :
    (buffer : List ℕ) (pos : ℕ)
    → pos + header_size ≤ length buffer
    → read_header buffer pos
      ≡ ok (record { size = u16_at buffer pos; id = u16_at buffer (pos + 2) })
unfolding read_header
read_header_lem buffer pos h = rw (le→leb (pos + header_size) (length buffer) h)

-- The two loops make the same calls and return the same length.
pub iocp_loop-eq-rio_loop :
    (fuel : ℕ) (buffer : List ℕ) (len pos : ℕ)
    → iocp_loop fuel buffer len pos ≡ rio_loop fuel buffer len pos
unfolding iocp_loop rio_loop
iocp_loop-eq-rio_loop zero buffer len pos = refl
iocp_loop-eq-rio_loop (suc fuel) buffer len pos = elim (Bool-cases (leb len pos)) [
  | inl over ↦ rw (over, lt→ltb (len - pos) header_size (ground (arith, over)))
  | inr more ↦ rw more (simp (iocp_loop-eq-rio_loop fuel buffer len))
]

-- With what is left incomplete, the loop stops.
stop_partial :
    (fuel : ℕ) (buffer : List ℕ) (len pos : ℕ)
    → len ≤ length buffer
    → pos ≤ len
    → IsPartial (slice buffer pos (len - pos))
    → rio_loop (suc fuel) buffer len pos ≡ ok ([], pos)
unfolding rio_loop
stop_partial fuel buffer len pos inside le p = ground (
  arith,
  length-slice buffer pos (len - pos) (omega arith),
  read_header_lem buffer pos,
  u16_at-slice buffer pos (len - pos),
)

-- With a packet in front, the loop delivers it and goes on behind it.
step_packet :
    (fuel : ℕ) (buffer : List ℕ) (len pos : ℕ) (packet more : List ℕ)
    → len ≤ length buffer
    → pos ≤ len
    → slice buffer pos (len - pos) ≡ packet ++ more
    → IsPacket packet
    → (packets : List (List ℕ)) (process_len : ℕ)
    → rio_loop fuel buffer len (pos + length packet) ≡ ok (packets, process_len)
    → rio_loop (suc fuel) buffer len pos ≡ ok (packet ∷ packets, process_len)
unfolding rio_loop
step_packet fuel buffer len pos packet more inside le e w packets process_len rest = rw (
  lt→leb_false len pos (omega (arith, w, count)),
  ge→ltb (len - pos) header_size (omega (arith, w, count)),
  read_header_lem buffer pos (omega (arith, w, count)),
  announced,
  ge→ltb (len - pos) (length packet) (omega (arith, count)),
  found,
  rest,
)
  where
    count : len - pos ≡ length packet + length more
    count = omega (
      arith,
      ap length e,
      length-append packet more,
      length-slice buffer pos (len - pos) (omega arith),
    )

    found : slice buffer pos (length packet) ≡ packet
    found =
        slice-prefix buffer pos (length packet) (length more) (len - pos) packet more count
          (omega arith) refl e

    announced : u16_at buffer pos ≡ length packet
    announced =
        sym (u16_at-slice buffer pos (length packet) (omega (arith, w)))
        ∙ ap (λ l. u16_at l 0) found
        ∙ w.sized

-- The loop on framed bytes, from any position.
rio_loop_lem :
    (packets : List (List ℕ)) (fuel : ℕ) (buffer : List ℕ) (len pos : ℕ) (rest : List ℕ)
    → len ≤ length buffer
    → pos ≤ len
    → Framed (slice buffer pos (len - pos)) packets rest
    → len - pos < fuel
    → rio_loop fuel buffer len pos ≡ ok (packets, pos + length (flatten packets))
unfolding flatten
rio_loop_lem packets zero buffer len pos rest inside le fr f = absurd (omega arith)
rio_loop_lem [] (suc fuel) buffer len pos rest inside le fr f =
    stop_partial fuel buffer len pos inside le (subst IsPartial (sym fr.parts) fr.rest_partial)
    ∙ ap (λ k. ok ([], k)) (omega arith)
rio_loop_lem (p ∷ packets) (suc fuel) buffer len pos rest inside le fr f =
    step_packet fuel buffer len pos p (flatten packets ++ rest) inside le cut fr.packets_whole.0
      packets (pos + length p + length (flatten packets))
      (rio_loop_lem packets fuel buffer len (pos + length p) rest inside (omega (arith, count))
        (record {
          parts =
              slice-suffix buffer pos (length p) (len - (pos + length p)) (len - pos) p
                (flatten packets ++ rest) (omega (arith, count)) (omega arith) refl cut;
          packets_whole = fr.packets_whole.1;
          rest_partial = fr.rest_partial;
        })
        (omega (arith, count, fr.packets_whole.0.whole)))
    ∙ ap (λ k. ok (p ∷ packets, k)) (omega (arith, length-append p (flatten packets)))
  where
    cut : slice buffer pos (len - pos) ≡ p ++ (flatten packets ++ rest)
    cut = fr.parts ∙ append_assoc p (flatten packets) rest

    count : len - pos ≡ length p + length (flatten packets ++ rest)
    count = omega (
      arith,
      ap length cut,
      length-append p (flatten packets ++ rest),
      length-slice buffer pos (len - pos) (omega arith),
    )

-- On received bytes that are whole packets and an incomplete one behind them, `OnRecv` with more
-- rounds than bytes returns: `OnRecvPacket` is called with exactly those packets, in order, and the
-- length returned is that of the packets. This holds of the session over RIO and of that over IOCP.
pub on_recv_lem :
    (fuel : ℕ) (buffer : List ℕ) (len : ℕ) (packets : List (List ℕ)) (rest : List ℕ)
    → len ≤ length buffer
    → Framed (take len buffer) packets rest
    → len < fuel
    → (rio_on_recv fuel buffer len ≡ ok (packets, length (flatten packets)))
      × (iocp_on_recv fuel buffer len ≡ ok (packets, length (flatten packets)))
unfolding rio_on_recv iocp_on_recv
on_recv_lem fuel buffer len packets rest inside fr f =
    (rio, iocp_loop-eq-rio_loop fuel buffer len 0 ∙ rio)
  where
    rio : rio_loop fuel buffer len 0 ≡ ok (packets, length (flatten packets))
    rio =
        rio_loop_lem packets fuel buffer len 0 rest inside (omega arith)
          (subst (λ k. Framed (take k buffer) packets rest) (omega arith) fr) (omega arith)
        ∙ ap (λ k. ok (packets, k)) (omega arith)

zero_loop :
    (fuel : ℕ) (buffer : List ℕ) (len pos : ℕ)
    → len ≤ length buffer
    → pos + header_size ≤ len
    → u16_at buffer pos ≡ 0
    → rio_loop fuel buffer len pos ≡ running
unfolding rio_loop
zero_loop zero buffer len pos inside h z = refl
zero_loop (suc fuel) buffer len pos inside h z = rw (
  lt→leb_false len pos (omega arith),
  ge→ltb (len - pos) header_size (omega arith),
  read_header_lem buffer pos (omega arith),
  z,
  ge→ltb (len - pos) 0 (omega arith),
  stay,
  zero_loop fuel buffer len pos inside h z,
)
  where
    stay : pos + 0 ≡ pos
    stay = omega arith

-- If the received bytes start with a header that says the size 0, `OnRecv` of either session never
-- leaves its loop: no number of rounds is enough.
pub on_recv-zero_size :
    (fuel : ℕ) (buffer : List ℕ) (len : ℕ)
    → len ≤ length buffer
    → header_size ≤ len
    → u16_at buffer 0 ≡ 0
    → (rio_on_recv fuel buffer len ≡ running) × (iocp_on_recv fuel buffer len ≡ running)
unfolding rio_on_recv iocp_on_recv
on_recv-zero_size fuel buffer len inside h z = (
  zero_loop fuel buffer len 0 inside (omega arith) z,
  iocp_loop-eq-rio_loop fuel buffer len 0 ∙ zero_loop fuel buffer len 0 inside (omega arith) z,
)
