-- ===== src/RingBuffer/Tests.antt =====
-- Runs of the ring buffer (ServerCore/Network/RingBuffer.cpp), and its theorems at concrete buffers.
use rio_iocp_server.Prelude.{◌<◌, ◌≡◌, refl, ◌⊎◌, ◌↔◌, true, false, [], ◌∷◌, arith, ok, ub, blit}
use rio_iocp_server.RingBuffer.{
  RingBuffer, write_buffer, write_loop, write_chunk, get_chunk_write_size, read_buffer, adjust_pos,
}
use rio_iocp_server.RingBuffer.Contents.{IsValid, contents}
use rio_iocp_server.RingBuffer.Write.{write_buffer_lem}
use rio_iocp_server.RingBuffer.Read.{read_buffer_lem}
use rio_iocp_server.RingBuffer.Overlap.{IsStraight, Overlaps, adjust_pos-undefined}
use rio_iocp_server.RingBuffer.Adjust.{adjust_pos_lem}

-- 7, 8 and 9, round the end of four cells.
abbrev pub wrapped : RingBuffer
wrapped = record { capacity = 4; size = 3; buffer = 8 ∷ 9 ∷ 0 ∷ 7 ∷ []; head_pos = 2; tail_pos = 3 }

wrapped-IsValid : IsValid wrapped
wrapped-IsValid = omega arith

-- 5 and 6 at the end of six cells: too little space behind them, and enough before them.
abbrev near_end : RingBuffer
near_end = record {
  capacity = 6;
  size = 2;
  buffer = 0 ∷ 0 ∷ 0 ∷ 5 ∷ 6 ∷ 0 ∷ [];
  head_pos = 5;
  tail_pos = 3;
}

near_end-IsValid : IsValid near_end
near_end-IsValid = omega arith

-- Four bytes from the second of six cells on: moved to the front they overlap their old place.
abbrev crowded : RingBuffer
crowded = record {
  capacity = 6;
  size = 4;
  buffer = 0 ∷ 1 ∷ 2 ∷ 3 ∷ 4 ∷ 0 ∷ [];
  head_pos = 5;
  tail_pos = 1;
}

crowded-IsValid : IsValid crowded
crowded-IsValid = omega arith

abbrev full : RingBuffer
full = record { capacity = 2; size = 2; buffer = 3 ∷ 4 ∷ []; head_pos = 1; tail_pos = 1 }

full-IsValid : IsValid full
full-IsValid = omega arith

write_round_the_end :
    write_buffer 3 near_end (7 ∷ 8 ∷ []) 2
    ≡ ok (
      true,
      record {
        capacity = 6;
        size = 4;
        buffer = 8 ∷ 0 ∷ 0 ∷ 5 ∷ 6 ∷ 7 ∷ [];
        head_pos = 1;
        tail_pos = 3;
      },
    )
unfolding write_buffer write_loop write_chunk get_chunk_write_size blit
write_round_the_end = refl

adjust_near_end :
    adjust_pos near_end
    ≡ ok (record {
      capacity = 6;
      size = 2;
      buffer = 5 ∷ 6 ∷ 0 ∷ 5 ∷ 6 ∷ 0 ∷ [];
      head_pos = 2;
      tail_pos = 0;
    })
unfolding adjust_pos blit
adjust_near_end = refl

write_buffer_lem_example :
    ((6 < 4) × (write_buffer 3 near_end (7 ∷ 8 ∷ []) 2 ≡ ok (false, near_end)))
    ⊎ ((r' : RingBuffer) × (write_buffer 3 near_end (7 ∷ 8 ∷ []) 2 ≡ ok (true, r'))
        × IsValid r'
        × (contents r' ≡ 5 ∷ 6 ∷ 7 ∷ 8 ∷ [])
        × (r'.capacity ≡ 6)
        × (r'.tail_pos ≡ 3))
write_buffer_lem_example =
    write_buffer_lem 3 near_end (7 ∷ 8 ∷ []) 2 near_end-IsValid (omega arith) (omega arith)

read_buffer_lem_example :
    ((3 < 2) × (read_buffer 3 wrapped (1 ∷ 1 ∷ 1 ∷ []) 2 ≡ ok (false, 1 ∷ 1 ∷ 1 ∷ [], wrapped)))
    ⊎ ((r' : RingBuffer) × (read_buffer 3 wrapped (1 ∷ 1 ∷ 1 ∷ []) 2
          ≡ ok (true, 7 ∷ 8 ∷ 1 ∷ [], r'))
        × IsValid r'
        × (contents r' ≡ 9 ∷ []))
read_buffer_lem_example =
    read_buffer_lem 3 wrapped (1 ∷ 1 ∷ 1 ∷ []) 2 wrapped-IsValid (omega arith) (omega arith)
      (omega arith)

adjust_pos-undefined_example : (adjust_pos crowded ≡ ub) ↔ Overlaps crowded
adjust_pos-undefined_example = adjust_pos-undefined crowded crowded-IsValid (omega arith)

adjust_pos_lem_example :
    (r' : RingBuffer) × (adjust_pos near_end ≡ ok r')
    × IsValid r'
    × IsStraight r'
    × (contents r' ≡ 5 ∷ 6 ∷ [])
    × (r'.capacity ≡ 6)
adjust_pos_lem_example =
    adjust_pos_lem near_end near_end-IsValid (omega arith) (λ h. ground arith) (λ h. omega arith)
