-- ===== src/RingBuffer/Adjust.antt =====
-- `AdjustPos` (ServerCore/Network/RingBuffer.cpp) against the list of bytes that the buffer holds.
use rio_iocp_server.Prelude.{
  ℕ, ◌+◌, ◌-◌, ◌/◌, ◌%◌, ◌≤◌, ◌<◌, ◌≡◌, refl, sym, ap, ◌∙◌, List, arith, length, drop, blit,
  length-blit, ok, get_or-take, get_or-drop, mod_cases, tabulate, tabulate-ext, get_or,
  get_or-blit_in, get_or-blit_above, tabulate-get_or,
}
use native.Mathlib.Decide.{dec_lt}
use rio_iocp_server.Memory.{slice, length-slice}
use rio_iocp_server.RingBuffer.{RingBuffer, adjust_pos}
use rio_iocp_server.RingBuffer.Overlap.{IsStraight, Overlaps, straight_lem, wrapped_lem}
use rio_iocp_server.RingBuffer.Contents.{IsValid, contents, cell, cells-slice}

-- Bytes stored at the front are the first cells of a buffer whose tail is the front.
blit_front-cells :
    (buffer : List ℕ) (cap : ℕ) (xs : List ℕ)
    → length buffer ≡ cap
    → length xs ≤ cap
    → tabulate (length xs) (cell (blit buffer 0 xs) cap 0) ≡ xs
blit_front-cells buffer cap xs storage h =
    tabulate-ext (length xs) (cell (blit buffer 0 xs) cap 0) (λ i. get_or xs i 0)
      (λ i l.
        get_or-blit_in buffer 0 xs ((0 + i) % cap) i 0 (omega arith)
          (omega (arith, mod_cases (0 + i) cap)) l)
    ∙ tabulate-get_or xs 0

-- The data moved to the front in one piece.
moved : RingBuffer → RingBuffer
moved r = record r {
  buffer = blit r.buffer 0 (slice r.buffer r.tail_pos r.size);
  tail_pos = 0;
  head_pos = r.size;
}

-- The data moved to the front in two pieces: first the left one, behind the place of the right one.
left_moved : RingBuffer → List ℕ
left_moved r = blit r.buffer (r.capacity - r.tail_pos) (slice r.buffer 0 r.head_pos)

joined : RingBuffer → RingBuffer
unfolding left_moved
joined r = record r {
  buffer = blit (left_moved r) 0 (slice (left_moved r) r.tail_pos (r.capacity - r.tail_pos));
  tail_pos = 0;
  head_pos = r.capacity - r.tail_pos + r.head_pos;
}

moved-contents :
    (r : RingBuffer)
    → IsValid r
    → r.head_pos ≡ r.tail_pos + r.size
    → r.head_pos < r.capacity
    → contents (moved r) ≡ contents r
unfolding moved
moved-contents r v e h =
    ap (λ n. tabulate n (cell (moved r).buffer r.capacity 0)) (sym count)
    ∙ blit_front-cells r.buffer r.capacity (slice r.buffer r.tail_pos r.size) v.storage
        (omega (arith, v.fits, count))
    ∙ cells-slice r.buffer r.capacity r.tail_pos r.size v.storage (omega arith)
  where
    count : length (slice r.buffer r.tail_pos r.size) ≡ r.size
    count = length-slice r.buffer r.tail_pos r.size (omega (arith, v.storage))

moved-IsValid :
    (r : RingBuffer) → IsValid r → r.size < r.capacity → IsValid (moved r) × IsStraight (moved r)
unfolding moved
moved-IsValid r v room = omega (
  arith,
  v,
  length-blit r.buffer 0 (slice r.buffer r.tail_pos r.size),
  mod_cases (0 + r.size) r.capacity,
)

joined-IsValid :
    (r : RingBuffer)
    → IsValid r
    → r.size < r.capacity
    → r.head_pos < r.tail_pos
    → IsValid (joined r) × IsStraight (joined r)
unfolding joined
joined-IsValid r v room o = omega (
  arith,
  v,
  wrapped_lem r v o,
  length-blit r.buffer (r.capacity - r.tail_pos) (slice r.buffer 0 r.head_pos),
  length-blit (left_moved r) 0 (slice (left_moved r) r.tail_pos (r.capacity - r.tail_pos)),
  mod_cases (0 + r.size) r.capacity,
)

module _ (r : RingBuffer) (v : IsValid r) (o : r.head_pos < r.tail_pos)
    (clear : r.size ≤ r.tail_pos) where
  right_size : ℕ
  right_size = r.capacity - r.tail_pos

  count_left : length (slice r.buffer 0 r.head_pos) ≡ r.head_pos
  count_left = length-slice r.buffer 0 r.head_pos (omega (arith, v))

  count_right : length (slice (left_moved r) r.tail_pos right_size) ≡ right_size
  unfolding left_moved right_size
  count_right =
      length-slice (left_moved r) r.tail_pos right_size
        (omega (arith, v, length-blit r.buffer right_size (slice r.buffer 0 r.head_pos)))

  -- A byte of the right piece. The left piece went to cells before it.
  right_byte :
      (i : ℕ)
      → i < right_size
      → cell (joined r).buffer r.capacity 0 i ≡ cell r.buffer r.capacity r.tail_pos i
  unfolding joined right_size
  right_byte i l =
      get_or-blit_in (left_moved r) 0 (slice (left_moved r) r.tail_pos right_size)
        ((0 + i) % r.capacity) i 0
        (omega
          (arith, v, count_right, length-blit r.buffer right_size (slice r.buffer 0 r.head_pos)))
        (omega (arith, v, mod_cases (0 + i) r.capacity)) (omega (arith, count_right))
      ∙ get_or-take right_size (drop r.tail_pos (left_moved r)) i 0 l
      ∙ get_or-drop r.tail_pos (left_moved r) i 0
      ∙ get_or-blit_above r.buffer right_size (slice r.buffer 0 r.head_pos) (r.tail_pos + i) 0
          (omega (arith, v, count_left, wrapped_lem r v o))
      ∙ ap (λ k. get_or r.buffer k 0) (omega (arith, mod_cases (r.tail_pos + i) r.capacity))

  left_byte :
      (i : ℕ)
      → right_size ≤ i
      → i < r.size
      → cell (joined r).buffer r.capacity 0 i ≡ cell r.buffer r.capacity r.tail_pos i
  unfolding joined right_size
  left_byte i h l =
      get_or-blit_above (left_moved r) 0 (slice (left_moved r) r.tail_pos right_size)
        ((0 + i) % r.capacity) 0 (omega (arith, v, count_right, mod_cases (0 + i) r.capacity))
      ∙ get_or-blit_in r.buffer right_size (slice r.buffer 0 r.head_pos) ((0 + i) % r.capacity)
          (i - right_size) 0 (omega (arith, v, count_left))
          (omega (arith, v, mod_cases (0 + i) r.capacity))
          (omega (arith, v, count_left, wrapped_lem r v o))
      ∙ get_or-take r.head_pos r.buffer (i - right_size) 0 (omega (arith, v, wrapped_lem r v o))
      ∙ ap (λ k. get_or r.buffer k 0) (omega (arith, v, mod_cases (r.tail_pos + i) r.capacity))

  joined-contents : contents (joined r) ≡ contents r
  unfolding joined
  joined-contents =
      tabulate-ext r.size (cell (joined r).buffer r.capacity 0)
        (cell r.buffer r.capacity r.tail_pos)
        λ i l. elim (dec_lt i right_size) [
          | yes h ↦ right_byte i h
          | no h ↦ left_byte i (omega arith) l
        ]

empty-IsValid :
    (r : RingBuffer)
    → IsValid r
    → r.size < r.capacity
    → r.head_pos ≡ r.tail_pos
    → IsValid (record r { head_pos = 0; tail_pos = 0 })
      × IsStraight (record r { head_pos = 0; tail_pos = 0 })
empty-IsValid r v room e =
    omega (arith, v, mod_cases (0 + r.size) r.capacity, mod_cases (r.tail_pos + r.size) r.capacity)

empty-contents :
    (r : RingBuffer)
    → IsValid r
    → r.size < r.capacity
    → r.head_pos ≡ r.tail_pos
    → contents (record r { head_pos = 0; tail_pos = 0 }) ≡ contents r
empty-contents r v room e =
    tabulate-ext r.size (cell r.buffer r.capacity 0) (cell r.buffer r.capacity r.tail_pos)
      (λ i l. absurd (omega (arith, v, mod_cases (r.tail_pos + r.size) r.capacity)))

adjust_empty :
    (r : RingBuffer)
    → r.head_pos ≡ r.tail_pos
    → adjust_pos r ≡ ok (record r { head_pos = 0; tail_pos = 0 })
unfolding adjust_pos
adjust_empty r e = ground arith

adjust_long :
    (r : RingBuffer)
    → r.tail_pos < r.head_pos
    → r.capacity / 3 ≤ r.capacity - r.head_pos
    → adjust_pos r ≡ ok r
unfolding adjust_pos
adjust_long r o long = ground arith

adjust_short :
    (r : RingBuffer)
    → IsValid r
    → r.size < r.capacity
    → r.tail_pos < r.head_pos
    → r.capacity - r.head_pos < r.capacity / 3
    → r.size ≤ r.tail_pos
    → adjust_pos r ≡ ok (moved r)
unfolding adjust_pos moved
adjust_short r v room o short apart = ground (arith, straight_lem r v)

adjust_round :
    (r : RingBuffer)
    → IsValid r
    → r.head_pos < r.tail_pos
    → r.size ≤ r.tail_pos
    → r.head_pos ≤ r.capacity - r.tail_pos
    → adjust_pos r ≡ ok (joined r)
unfolding adjust_pos joined
adjust_round r v o clear apart = ground (
  arith,
  wrapped_lem r v,
  length-blit r.buffer (r.capacity - r.tail_pos) (slice r.buffer 0 r.head_pos),
)

-- `AdjustPos` on a well formed buffer that is not full, when its moves do not overlap and, if the
-- data go round the end, they fit before the tail: it returns, the bytes held are the same, and they
-- stand in one piece in a well formed buffer of the same capacity.
pub adjust_pos_lem :
    (r : RingBuffer)
    → IsValid r
    → r.size < r.capacity
    → ¬ Overlaps r
    → (r.head_pos < r.tail_pos → r.size ≤ r.tail_pos)
    → (r' : RingBuffer) × (adjust_pos r ≡ ok r')
      × IsValid r'
      × IsStraight r'
      × (contents r' ≡ contents r)
      × (r'.capacity ≡ r.capacity)
unfolding adjust_pos joined moved
adjust_pos_lem r v room apart clear = elim (dec_lt r.head_pos r.tail_pos) [
  | yes round ↦ (
    joined r,
    adjust_round r v round (clear round) (ground (arith, apart)),
    (joined-IsValid r v room round).0,
    (joined-IsValid r v room round).1,
    joined-contents r v round (clear round),
    refl,
  )
  | no straight ↦ elim (dec_lt r.tail_pos r.head_pos) [
    | yes some_data ↦ elim (dec_lt (r.capacity - r.head_pos) (r.capacity / 3)) [
      | yes short ↦ (
        moved r,
        adjust_short r v room some_data short (ground (arith, apart)),
        (moved-IsValid r v room).0,
        (moved-IsValid r v room).1,
        moved-contents r v (straight_lem r v (omega arith) room) (omega (arith, v)),
        refl,
      )
      | no long ↦ (
        r,
        adjust_long r some_data (omega arith),
        v,
        record { ordered = omega arith; piece = straight_lem r v (omega arith) room },
        refl,
        refl,
      )
    ]
    | no nothing ↦ (
      record r { head_pos = 0; tail_pos = 0 },
      adjust_empty r (omega arith),
      (empty-IsValid r v room (omega arith)).0,
      (empty-IsValid r v room (omega arith)).1,
      empty-contents r v room (omega arith),
      refl,
    )
  ]
]
