-- ===== src/RingBuffer/Overlap.antt =====
-- When the moves of `AdjustPos` (ServerCore/Network/RingBuffer.cpp) overlap: it moves the bytes to
-- the front of the memory by `memcpy`, which is undefined where the ranges overlap.
use rio_iocp_server.Prelude.{
  ◌+◌, ◌-◌, ◌/◌, ◌≤◌, ◌<◌, ◌≡◌, ◌⊎◌, ◌↔◌, arith, length-blit, ub, mod_cases,
}
use rio_iocp_server.Memory.{slice}
use rio_iocp_server.RingBuffer.{RingBuffer, adjust_pos}
use rio_iocp_server.RingBuffer.Contents.{IsValid}

-- The data stand in one piece, and the head has not gone round the end.
pub record IsStraight (r : RingBuffer) : Type 0 where
  pub ordered : r.tail_pos ≤ r.head_pos
  pub piece : r.head_pos ≡ r.tail_pos + r.size

-- The moves of `AdjustPos` copy between ranges that overlap.
abbrev pub Overlaps : RingBuffer → Type 0
Overlaps r =
    ((r.tail_pos < r.head_pos) × (r.capacity - r.head_pos < r.capacity / 3) × (r.tail_pos < r.size))
    ⊎ ((r.head_pos < r.tail_pos) × (r.capacity - r.tail_pos < r.head_pos))
    ⊎ ((r.head_pos < r.tail_pos) × (r.tail_pos < r.capacity - r.tail_pos))

pub straight_lem :
    (r : RingBuffer)
    → IsValid r
    → r.tail_pos ≤ r.head_pos
    → r.size < r.capacity
    → r.head_pos ≡ r.tail_pos + r.size
straight_lem r v o room = omega (arith, v, mod_cases (r.tail_pos + r.size) r.capacity)

pub wrapped_lem :
    (r : RingBuffer)
    → IsValid r
    → r.head_pos < r.tail_pos
    → r.size ≡ r.capacity - r.tail_pos + r.head_pos
wrapped_lem r v o = omega (arith, v, mod_cases (r.tail_pos + r.size) r.capacity)

-- `AdjustPos` on a well formed buffer that is not full runs into undefined behaviour exactly when
-- the ranges of one of its moves overlap.
pub adjust_pos-undefined :
    (r : RingBuffer) → IsValid r → r.size < r.capacity → (adjust_pos r ≡ ub) ↔ Overlaps r
unfolding adjust_pos
adjust_pos-undefined r v room = ground (
  arith,
  length-blit r.buffer (r.capacity - r.tail_pos) (slice r.buffer 0 r.head_pos),
  straight_lem r v,
  wrapped_lem r v,
)
