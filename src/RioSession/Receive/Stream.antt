-- ===== src/RioSession/Receive/Stream.antt =====
-- The receive path of a session (RioSession.cpp, and IocpSession.cpp, which has the same buffer)
-- against the stream of bytes that arrive.
use rio_iocp_server.Prelude.{
  ℕ, ◌+◌, ◌-◌, ◌/◌, ◌≤◌, ◌<◌, ◌≡◌, refl, sym, ap, subst, ◌∙◌, List, ◌++◌, true, arith, length, take,
  drop, flatten, ok, length-append, length-drop, drop-append, ge→ltb, mod_cases,
}
use rio_iocp_server.RingBuffer.{
  RingBuffer, get_chunk_write_size, on_write_buffer, on_read_buffer, adjust_pos,
}
use rio_iocp_server.RingBuffer.Contents.{IsValid, contents, length-contents, cells-slice}
use rio_iocp_server.RingBuffer.Write.{received, stored, sized, stored-IsValid, contents-stored}
use rio_iocp_server.RingBuffer.Read.{advanced, advanced-IsValid, contents-advanced}
use rio_iocp_server.RingBuffer.Overlap.{IsStraight, Overlaps}
use rio_iocp_server.RingBuffer.Adjust.{adjust_pos_lem}
use rio_iocp_server.Packet.{rio_on_recv, iocp_on_recv}
use rio_iocp_server.Packet.Framing.{Framed}
use rio_iocp_server.Packet.OnRecv.{on_recv_lem}

-- A receive buffer between two receives: its bytes stand in one piece and do not fill it.
pub record IsReady (r : RingBuffer) : Type 0 where
  pub valid : IsValid r
  pub straight : IsStraight r
  pub room : r.size < r.capacity

-- At most a third of the capacity, in one piece in memory: `AdjustPos` moves it without an overlap.
no_overlap :
    (q : RingBuffer)
    → IsValid q
    → q.tail_pos + q.size ≤ q.capacity
    → q.size ≤ q.capacity / 3
    → ¬ Overlaps q × (q.head_pos < q.tail_pos → q.size ≤ q.tail_pos)
no_overlap q v h short = (
  (λ o. ground (arith, v, o, mod_cases (q.tail_pos + q.size) q.capacity)),
  (λ o. omega (arith, v, mod_cases (q.tail_pos + q.size) q.capacity)),
)

-- The buffer when `n` bytes `xs` have arrived and are counted.
abbrev pub arrived : RingBuffer → List ℕ → RingBuffer
arrived r xs = sized (stored r xs (length xs)) (r.size + length xs)

module _ (r : RingBuffer) (xs : List ℕ) (ready : IsReady r)
    (fits : length xs ≤ get_chunk_write_size r) where
  below_end : r.head_pos + length xs ≤ r.capacity
  unfolding get_chunk_write_size
  below_end = ground (arith, ready)

  pub counted : on_write_buffer (received r xs) (length xs) ≡ (true, arrived r xs)
  unfolding on_write_buffer
  counted = rw (ge→ltb (r.capacity - r.size) (length xs) (omega (arith, ready, below_end)))

  arrived-IsValid : IsValid (arrived r xs)
  arrived-IsValid =
      stored-IsValid r r.size (length xs) xs ready.valid (omega (arith, ready, below_end))

  pub contents-arrived : contents (arrived r xs) ≡ contents r ++ xs
  contents-arrived =
      contents-stored r r.size (length xs) xs ready.valid refl (omega (arith, ready, below_end))
        below_end

  -- `GetReadBuf` with `GetDataSize` is the bytes held.
  arrived_in_memory :
      take (r.size + length xs) (drop r.tail_pos (arrived r xs).buffer) ≡ contents (arrived r xs)
  arrived_in_memory =
      cells-slice (arrived r xs).buffer r.capacity r.tail_pos (r.size + length xs)
        arrived-IsValid.storage (omega (arith, ready, below_end))

  module _ (packets : List (List ℕ)) (rest : List ℕ)
      (framed : Framed (contents r ++ xs) packets rest) where
    -- What both `OnRecv` find in the buffer.
    parsed_by_both :
        (fuel : ℕ)
        → r.capacity < fuel
        → (rio_on_recv fuel (drop r.tail_pos (arrived r xs).buffer) (r.size + length xs)
            ≡ ok (packets, length (flatten packets)))
          × (iocp_on_recv fuel (drop r.tail_pos (arrived r xs).buffer) (r.size + length xs)
              ≡ ok (packets, length (flatten packets)))
    parsed_by_both fuel f =
        on_recv_lem fuel (drop r.tail_pos (arrived r xs).buffer) (r.size + length xs) packets rest
          (omega (
            arith,
            ready,
            below_end,
            arrived-IsValid.storage,
            length-drop r.tail_pos (arrived r xs).buffer,
          ))
          (subst (λ l. Framed l packets rest) (sym (arrived_in_memory ∙ contents-arrived)) framed)
          (omega (arith, ready, below_end))

    pub parsed :
        (fuel : ℕ)
        → r.capacity < fuel
        → rio_on_recv fuel (drop r.tail_pos (arrived r xs).buffer) (r.size + length xs)
          ≡ ok (packets, length (flatten packets))
    parsed fuel f = (parsed_by_both fuel f).0

    pub parsed_by_iocp :
        (fuel : ℕ)
        → r.capacity < fuel
        → iocp_on_recv fuel (drop r.tail_pos (arrived r xs).buffer) (r.size + length xs)
          ≡ ok (packets, length (flatten packets))
    parsed_by_iocp fuel f = (parsed_by_both fuel f).1

    pub sizes : r.size + length xs ≡ length (flatten packets) + length rest
    sizes = omega (
      arith,
      length-contents (arrived r xs),
      ap length (contents-arrived ∙ framed.parts),
      length-append (flatten packets) rest,
    )

    -- The buffer when the packets are consumed.
    pub consumed : RingBuffer
    consumed =
        sized (advanced (arrived r xs) (length (flatten packets)))
          (r.size + length xs - length (flatten packets))

    pub read : on_read_buffer (arrived r xs) (length (flatten packets)) ≡ (true, consumed)
    unfolding on_read_buffer consumed
    read = rw (ge→ltb (r.size + length xs) (length (flatten packets)) (omega (arith, sizes)))

    consumed-IsValid : IsValid consumed
    unfolding consumed
    consumed-IsValid =
        advanced-IsValid (arrived r xs) (r.size + length xs) (length (flatten packets))
          (r.size + length xs - length (flatten packets)) arrived-IsValid (omega (arith, sizes))

    contents-consumed : contents consumed ≡ rest
    unfolding consumed
    contents-consumed =
        contents-advanced (arrived r xs) (length (flatten packets)) (omega (arith, sizes))
        ∙ ap (drop (length (flatten packets))) (contents-arrived ∙ framed.parts)
        ∙ drop-append (length (flatten packets)) (flatten packets) rest refl

    module _ (short : length rest ≤ r.capacity / 3) where
      consumed_in_memory :
          (consumed.size ≡ length rest) × (consumed.tail_pos + length rest ≤ r.capacity)
      unfolding consumed
      consumed_in_memory = omega (
        arith,
        sizes,
        ready,
        below_end,
        mod_cases (r.tail_pos + length (flatten packets)) r.capacity,
      )

      -- The buffer after `AdjustPos` is ready again and holds what is left.
      pub adjusted :
          (r' : RingBuffer) × (adjust_pos consumed ≡ ok r')
          × IsReady r'
          × (contents r' ≡ rest)
          × (r'.capacity ≡ r.capacity)
      unfolding consumed
      adjusted =
          let apart =
            no_overlap consumed consumed-IsValid (omega (arith, consumed_in_memory))
              (omega (arith, consumed_in_memory)) in
          let (r', runs, valid, straight, bytes, same) =
            adjust_pos_lem consumed consumed-IsValid (omega (arith, consumed_in_memory, ready))
              apart.0 apart.1 in
          (
            r',
            runs,
            record {
              valid = valid;
              straight = straight;
              room = omega (
                arith,
                ready,
                consumed_in_memory,
                length-contents r',
                ap length (bytes ∙ contents-consumed),
              );
            },
            bytes ∙ contents-consumed,
            same,
          )
