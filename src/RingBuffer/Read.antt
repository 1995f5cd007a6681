-- ===== src/RingBuffer/Read.antt =====
-- `ReadBuffer` and `OnReadBuffer` (ServerCore/Network/RingBuffer.cpp) against the list of bytes that
-- the buffer holds.
use rio_iocp_server.Prelude.{
  ℕ, zero, suc, ◌+◌, ◌-◌, ◌%◌, ◌≤◌, ◌<◌, ◌≡◌, refl, sym, ap, ◌∙◌, ◌⊎◌, inl, inr, true, false, List,
  ◌++◌, arith, length, length-take, take, drop, blit, length-blit, Outcome, ok, running, ltb,
  Bool-cases, ltb→lt, ltb→ge, mod_cases, ap₂, mod-shift, tabulate, lt→ltb, le→leb, ge→ltb,
  blit-blit, blit-nil, length-tabulate, take-append, drop-append, blit-parts,
}
use rio_iocp_server.RingBuffer.{
  RingBuffer, get_chunk_read_size, read_chunk, read_loop, read_buffer, on_read_buffer,
}
use rio_iocp_server.RingBuffer.Contents.{
  IsValid, contents, length-contents, cell, cells-split, cells-slice,
}

abbrev pub sized : RingBuffer → ℕ → RingBuffer
sized r size = record r { size = size }

-- The buffer after the tail has moved on by `n`; the loop of `ReadBuffer` leaves `m_size` as it was.
abbrev pub advanced : RingBuffer → ℕ → RingBuffer
advanced r n = record r { tail_pos = (r.tail_pos + n) % r.capacity }

pub advanced-IsValid :
    (r : RingBuffer) (size n left : ℕ)
    → IsValid (sized r size)
    → size ≡ n + left
    → IsValid (sized (advanced r n) left)
advanced-IsValid r size n left v e = record {
  positive = v.positive;
  storage = v.storage;
  tail_in = omega (arith, v.positive);
  fits = omega (arith, v.fits);
  head_at =
      v.head_at
      ∙ ap (λ k. (r.tail_pos + k) % r.capacity) e
      ∙ sym (mod-shift ((r.tail_pos + n) % r.capacity) r.tail_pos n left r.capacity refl);
}

-- A chunk ends inside the memory, holds bytes of the buffer only, and is not empty while a byte is
-- there, unless the buffer is full.
chunk_bounds :
    (r : RingBuffer) (size : ℕ)
    → IsValid (sized r size)
    → size < r.capacity
    → 0 < size
    → (r.tail_pos + get_chunk_read_size r ≤ r.capacity)
      × (get_chunk_read_size r ≤ size)
      × (0 < get_chunk_read_size r)
unfolding get_chunk_read_size
chunk_bounds r size v h p = ground (arith, mod_cases (r.tail_pos + size) r.capacity)

read_chunk_lem :
    (r : RingBuffer) (size : ℕ) (dest : List ℕ) (pos n : ℕ)
    → IsValid (sized r size)
    → r.tail_pos + n ≤ r.capacity
    → pos + n ≤ length dest
    → read_chunk r dest pos n
      ≡ ok (blit dest pos (tabulate n (cell r.buffer r.capacity r.tail_pos)), advanced r n)
unfolding read_chunk
read_chunk_lem r size dest pos n v straight inside = rw (
  le→leb (pos + n) (length dest) inside,
  le→leb (r.tail_pos + n) (length r.buffer) (omega (arith, v.storage)),
  cells-slice r.buffer r.capacity r.tail_pos n v.storage straight,
)

advanced_zero : (r : RingBuffer) → r.tail_pos < r.capacity → advanced r 0 ≡ r
advanced_zero r h =
    ap (λ t. record r { tail_pos = t }) (omega (arith, mod_cases (r.tail_pos + 0) r.capacity))

-- A chunk, then the bytes behind it.
rounds_join :
    (r : RingBuffer) (dest : List ℕ) (pos chunk left need : ℕ)
    → need ≡ chunk + left
    → ◌≡◌ {A = Outcome (List ℕ × RingBuffer)}
        (ok (
          blit
              (blit dest pos (tabulate chunk (cell r.buffer r.capacity r.tail_pos)))
              (pos + chunk)
              (tabulate left (cell r.buffer r.capacity ((r.tail_pos + chunk) % r.capacity))),
          advanced (advanced r chunk) left,
        ))
        (ok (blit dest pos (tabulate need (cell r.buffer r.capacity r.tail_pos)), advanced r need))
rounds_join r dest pos chunk left need e =
    ap₂ (λ d t. ok (d, record r { tail_pos = t }))
      (blit-blit dest pos (pos + chunk) (tabulate chunk (cell r.buffer r.capacity r.tail_pos))
          (tabulate left (cell r.buffer r.capacity ((r.tail_pos + chunk) % r.capacity)))
          (ap (λ k. pos + k) (sym (length-tabulate chunk (cell r.buffer r.capacity r.tail_pos))))
        ∙ ap (λ l. blit dest pos l)
            (sym (cells-split r.buffer r.capacity r.tail_pos need chunk left e)))
      (mod-shift ((r.tail_pos + chunk) % r.capacity) r.tail_pos chunk left r.capacity refl
        ∙ ap (λ k. (r.tail_pos + k) % r.capacity) (sym e))

-- The loop ends within one round for each byte, on a buffer that is not full.
read_loop_lem :
    (fuel : ℕ) (r : RingBuffer) (dest : List ℕ) (pos need size : ℕ)
    → IsValid (sized r size)
    → size < r.capacity
    → need ≤ size
    → pos + need ≤ length dest
    → need < fuel
    → read_loop fuel r dest pos need
      ≡ ok (blit dest pos (tabulate need (cell r.buffer r.capacity r.tail_pos)), advanced r need)
unfolding read_loop
read_loop_lem zero r dest pos need size v room h inside f = absurd (omega arith)
read_loop_lem (suc fuel) r dest pos zero size v room h inside f =
    ap₂ (λ d q. ok (d, q)) (sym (blit-nil dest pos)) (sym (advanced_zero r v.tail_in))
read_loop_lem (suc fuel) r dest pos (suc need) size v room h inside f =
    elim (Bool-cases (ltb chunk (suc need))) [
      | inl more ↦
          rw
            (
              busy,
              more,
              read_chunk_lem r size dest pos chunk v bounds.0
                  (omega (arith, ltb→lt chunk (suc need))),
            )
            (read_loop_lem fuel (advanced r chunk)
                (blit dest pos (tabulate chunk (cell r.buffer r.capacity r.tail_pos))) (pos + chunk)
                (suc need - chunk) (size - chunk)
                (advanced-IsValid r size chunk (size - chunk) v (omega (arith, bounds)))
                (omega arith) (omega (arith, bounds))
                (omega (
                  arith,
                  ltb→lt chunk (suc need),
                  length-blit dest pos (tabulate chunk (cell r.buffer r.capacity r.tail_pos)),
                ))
                (omega (arith, bounds))
              ∙ rounds_join r dest pos chunk (suc need - chunk) (suc need)
                  (omega (arith, ltb→lt chunk (suc need))))
      | inr last ↦
          rw (busy, last)
            (read_chunk_lem r size dest pos (suc need) v
              (omega (arith, ltb→ge chunk (suc need), bounds)) inside)
    ]
  where
    chunk : ℕ
    chunk = get_chunk_read_size r

    bounds : (r.tail_pos + chunk ≤ r.capacity) × (chunk ≤ size) × (0 < chunk)
    bounds = chunk_bounds r size v room (omega arith)

    busy : ltb 0 (suc need) ≡ true
    busy = lt→ltb 0 (suc need) (omega arith)

take-contents :
    (r : RingBuffer) (n : ℕ)
    → n ≤ r.size
    → tabulate n (cell r.buffer r.capacity r.tail_pos) ≡ take n (contents r)
take-contents r n h = sym (
    ap (λ l. take n l)
      (cells-split r.buffer r.capacity r.tail_pos r.size n (r.size - n) (omega arith))
    ∙ take-append n (tabulate n (cell r.buffer r.capacity r.tail_pos)) _
        (sym (length-tabulate n (cell r.buffer r.capacity r.tail_pos))))

pub contents-advanced :
    (r : RingBuffer) (n : ℕ)
    → n ≤ r.size
    → contents (sized (advanced r n) (r.size - n)) ≡ drop n (contents r)
contents-advanced r n h = sym (
    ap (λ l. drop n l)
      (cells-split r.buffer r.capacity r.tail_pos r.size n (r.size - n) (omega arith))
    ∙ drop-append n (tabulate n (cell r.buffer r.capacity r.tail_pos)) _
        (sym (length-tabulate n (cell r.buffer r.capacity r.tail_pos))))

blit_front :
    (dest : List ℕ) (n : ℕ) (xs : List ℕ)
    → n ≤ length dest
    → length xs ≡ n
    → blit dest 0 xs ≡ xs ++ drop n dest
blit_front dest n xs h e =
    blit-parts dest 0 xs (omega arith) ∙ ap (λ k. xs ++ drop k dest) (omega arith)

-- `ReadBuffer` on a well formed buffer that is not full, given room for `read_size` bytes and more
-- rounds than bytes: if it holds fewer bytes it returns false and changes nothing; otherwise it
-- returns true, the caller's memory starts with the oldest `read_size` bytes and is unchanged behind
-- them, the buffer holds the other bytes and is well formed.
pub read_buffer_lem :
    (fuel : ℕ) (r : RingBuffer) (dest : List ℕ) (read_size : ℕ)
    → IsValid r
    → r.size < r.capacity
    → read_size ≤ length dest
    → read_size < fuel
    → ((r.size < read_size) × (read_buffer fuel r dest read_size ≡ ok (false, dest, r)))
      ⊎ ((r' : RingBuffer) × (read_buffer fuel r dest read_size
            ≡ ok (true, take read_size (contents r) ++ drop read_size dest, r'))
          × IsValid r'
          × (contents r' ≡ drop read_size (contents r)))
unfolding read_buffer
read_buffer_lem fuel r dest n v room inside f = elim (Bool-cases (ltb r.size n)) [
  | inl small ↦ inl (ltb→lt r.size n small, rw small)
  | inr held ↦ inr (
    sized (advanced r n) (r.size - n),
    rw
        (
          held,
          read_loop_lem fuel r dest 0 n r.size v room (ltb→ge r.size n held) (omega arith) f,
          take-contents r n (ltb→ge r.size n held),
        )
        (ap (λ d. ok (true, d, sized (advanced r n) (r.size - n)))
          (blit_front dest n (take n (contents r)) inside
            (omega (arith, length-take n (contents r), length-contents r, ltb→ge r.size n)))),
    advanced-IsValid r r.size n (r.size - n) v (omega (arith, ltb→ge r.size n)),
    contents-advanced r n (ltb→ge r.size n held),
  )
]

-- `OnReadBuffer` on a well formed buffer: if it holds fewer than `read_size` bytes it returns false
-- and changes nothing; otherwise it returns true, the oldest `read_size` bytes are gone, and the
-- buffer is well formed.
pub on_read_buffer_lem :
    (r : RingBuffer) (read_size : ℕ)
    → IsValid r
    → ((r.size < read_size) × (on_read_buffer r read_size ≡ (false, r)))
      ⊎ (((on_read_buffer r read_size).0 ≡ true)
          × IsValid (on_read_buffer r read_size).1
          × (contents (on_read_buffer r read_size).1 ≡ drop read_size (contents r)))
unfolding on_read_buffer
on_read_buffer_lem r n v = elim (Bool-cases (ltb r.size n)) [
  | inl small ↦ inl (ltb→lt r.size n small, rw small)
  | inr held ↦ inr (
      rw held (
        refl,
        advanced-IsValid r r.size n (r.size - n) v (omega (arith, ltb→ge r.size n)),
        contents-advanced r n (ltb→ge r.size n held),
      ))
]

full_chunk : (r : RingBuffer) → IsValid r → r.size ≡ r.capacity → get_chunk_read_size r ≡ 0
unfolding get_chunk_read_size
full_chunk r v full = ground (arith, mod_cases (r.tail_pos + r.size) r.capacity)

empty_chunk :
    (r : RingBuffer) (dest : List ℕ) (pos : ℕ)
    → IsValid r
    → pos ≤ length dest
    → read_chunk r dest pos 0 ≡ ok (dest, r)
empty_chunk r dest pos v inside =
    read_chunk_lem r r.size dest pos 0 v (omega (arith, v.tail_in)) (omega arith)
    ∙ ap₂ (λ d q. ok (d, q)) (blit-nil dest pos) (advanced_zero r v.tail_in)

-- On a full buffer a chunk is empty, so a round moves nothing.
full_round :
    (fuel : ℕ) (r : RingBuffer) (dest : List ℕ) (pos need : ℕ)
    → IsValid r
    → r.size ≡ r.capacity
    → pos ≤ length dest
    → 0 < need
    → read_loop fuel r dest pos need ≡ running
unfolding read_loop
full_round zero r dest pos need v full inside p = refl
full_round (suc fuel) r dest pos need v full inside p =
    rw (lt→ltb 0 need p, full_chunk r v full, lt→ltb 0 need p, empty_chunk r dest pos v inside)
      (full_round fuel r dest (pos + 0) (need - 0) v full (omega arith) (omega arith))

-- `ReadBuffer` asked for at least one byte of a full, well formed buffer never leaves its loop: no
-- number of rounds is enough.
pub read_buffer-full :
    (fuel : ℕ) (r : RingBuffer) (dest : List ℕ) (read_size : ℕ)
    → IsValid r
    → r.size ≡ r.capacity
    → 0 < read_size
    → read_size ≤ r.size
    → read_buffer fuel r dest read_size ≡ running
unfolding read_buffer
read_buffer-full fuel r dest n v full p h =
    rw (ge→ltb r.size n h, full_round fuel r dest 0 n v full (omega arith) p)
