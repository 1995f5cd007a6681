-- ===== src/RingBuffer/Write.antt =====
-- `WriteBuffer` and `OnWriteBuffer` (ServerCore/Network/RingBuffer.cpp) against the list of bytes
-- that the buffer holds.
use rio_iocp_server.Prelude.{
  ℕ, zero, suc, ◌+◌, ◌-◌, ◌%◌, ◌≤◌, ◌<◌, ◌≡◌, refl, sym, ap, subst, ◌∙◌, ◌⊎◌, ◌↔◌, inl, inr, Bool,
  true, false, List, ◌++◌, arith, length, length-append, take, blit, length-blit, Outcome, ok,
  ◌>>=◌, append-nil, append_assoc, ltb, Bool-cases, ltb→lt, ltb→ge, mod_cases, mod-shift, tabulate,
  lt→ltb, le→leb, ge→ltb,
}
use rio_iocp_server.Memory.{slice, length-slice, slice-split}
use rio_iocp_server.RingBuffer.{
  RingBuffer, get_chunk_write_size, write_chunk, write_loop, write_buffer, on_write_buffer,
}
use native.Mathlib.Nat.{add-zero}
use rio_iocp_server.RingBuffer.Contents.{IsValid, contents, cell, cells-blit}

-- The buffer after `xs` is copied to the head and the head has moved on behind it. The loops leave
-- `m_size` as it was; `sized` is the buffer as if it counted the bytes copied so far.
abbrev pub stored : RingBuffer → List ℕ → ℕ → RingBuffer
stored r xs n = record r {
  buffer = blit r.buffer r.head_pos xs;
  head_pos = (r.head_pos + n) % r.capacity;
}

abbrev pub sized : RingBuffer → ℕ → RingBuffer
sized r size = record r { size = size }

pub stored-IsValid :
    (r : RingBuffer) (size n : ℕ) (xs : List ℕ)
    → IsValid (sized r size)
    → size + n ≤ r.capacity
    → IsValid (sized (stored r xs n) (size + n))
stored-IsValid r size n xs v h = record {
  positive = v.positive;
  storage = length-blit r.buffer r.head_pos xs ∙ v.storage;
  tail_in = v.tail_in;
  fits = h;
  head_at = mod-shift r.head_pos r.tail_pos size n r.capacity v.head_at;
}

pub contents-stored :
    (r : RingBuffer) (size n : ℕ) (xs : List ℕ)
    → IsValid (sized r size)
    → length xs ≡ n
    → size + n ≤ r.capacity
    → r.head_pos + n ≤ r.capacity
    → contents (sized (stored r xs n) (size + n)) ≡ contents (sized r size) ++ xs
contents-stored r size n xs v e h straight =
    ap (λ k. tabulate (size + k) (cell (blit r.buffer r.head_pos xs) r.capacity r.tail_pos)) (sym e)
    ∙ cells-blit r.buffer r.capacity r.tail_pos size r.head_pos xs v.storage v.tail_in (omega arith)
        v.head_at (omega arith)

write_chunk_lem :
    (r : RingBuffer) (size : ℕ) (data_in : List ℕ) (pos n : ℕ)
    → IsValid (sized r size)
    → r.head_pos + n ≤ r.capacity
    → pos + n ≤ length data_in
    → write_chunk r data_in pos n ≡ ok (stored r (slice data_in pos n) n)
unfolding write_chunk
write_chunk_lem r size data_in pos n v straight inside = rw (
  le→leb (r.head_pos + n) (length r.buffer) (omega (arith, v.storage)),
  le→leb (pos + n) (length data_in) inside,
)

-- A chunk ends inside the memory, holds free bytes only, and is not empty while a byte is free.
chunk_bounds :
    (r : RingBuffer) (size : ℕ)
    → IsValid (sized r size)
    → size < r.capacity
    → (r.head_pos + get_chunk_write_size r ≤ r.capacity)
      × (size + get_chunk_write_size r ≤ r.capacity)
      × (0 < get_chunk_write_size r)
unfolding get_chunk_write_size
chunk_bounds r size v h = ground (arith, mod_cases (r.tail_pos + size) r.capacity)

-- What the loop has done to a buffer that held `size` bytes, once it has copied `xs`.
pub record Wrote (r : RingBuffer) (size : ℕ) (xs : List ℕ) (r' : RingBuffer) : Type 0 where
  pub valid : IsValid (sized r' (size + length xs))
  pub bytes : contents (sized r' (size + length xs)) ≡ contents (sized r size) ++ xs
  pub same_size : r'.size ≡ r.size
  pub same_capacity : r'.capacity ≡ r.capacity
  pub same_tail : r'.tail_pos ≡ r.tail_pos

stored-Wrote :
    (r : RingBuffer) (size n : ℕ) (xs : List ℕ)
    → IsValid (sized r size)
    → length xs ≡ n
    → size + n ≤ r.capacity
    → r.head_pos + n ≤ r.capacity
    → Wrote r size xs (stored r xs n)
stored-Wrote r size n xs v e h straight = record {
  valid = rw e (stored-IsValid r size n xs v h);
  bytes = rw e (contents-stored r size n xs v e h straight);
  same_size = refl;
  same_capacity = refl;
  same_tail = refl;
}

-- A first chunk, then the rest.
Wrote-append :
    (r q s : RingBuffer) (size n : ℕ) (xs ys zs : List ℕ)
    → length xs ≡ n
    → zs ≡ xs ++ ys
    → Wrote r size xs q
    → Wrote q (size + n) ys s
    → Wrote r size zs s
Wrote-append r q s size n xs ys zs e z first rest = record {
  valid = subst (λ k. IsValid (sized s k)) (sym total) rest.valid;
  bytes =
      ap (λ k. contents (sized s k)) total
      ∙ rest.bytes
      ∙ ap (λ k. contents (sized q (size + k)) ++ ys) (sym e)
      ∙ ap (λ l. l ++ ys) first.bytes
      ∙ append_assoc (contents (sized r size)) xs ys
      ∙ ap (λ l. contents (sized r size) ++ l) (sym z);
  same_size = rest.same_size ∙ first.same_size;
  same_capacity = rest.same_capacity ∙ first.same_capacity;
  same_tail = rest.same_tail ∙ first.same_tail;
}
  where
    total : size + length zs ≡ size + n + length ys
    total = omega (arith, ap length z, length-append xs ys)

-- The last round copies all that is left.
last_round :
    (r : RingBuffer) (data_in : List ℕ) (pos need size : ℕ)
    → IsValid (sized r size)
    → size + need ≤ r.capacity
    → pos + need ≤ length data_in
    → r.head_pos + need ≤ r.capacity
    → (r' : RingBuffer) × (write_chunk r data_in pos need ≡ ok r')
      × Wrote r size (slice data_in pos need) r'
last_round r data_in pos need size v h inside straight = (
  stored r (slice data_in pos need) need,
  write_chunk_lem r size data_in pos need v straight inside,
  stored-Wrote r size need (slice data_in pos need) v (length-slice data_in pos need inside) h
      straight,
)

-- A round that does not copy all, followed by the loop on the rest.
next_rounds :
    (fuel : ℕ) (r : RingBuffer) (data_in : List ℕ) (pos chunk left need size : ℕ)
    → chunk + left ≡ need
    → pos + chunk ≤ length data_in
    → Wrote r size (slice data_in pos chunk) (stored r (slice data_in pos chunk) chunk)
    → ((r' : RingBuffer) × (write_loop fuel
            (stored r (slice data_in pos chunk) chunk)
            data_in
            (pos + chunk)
            left
          ≡ ok r')
        × Wrote
            (stored r (slice data_in pos chunk) chunk)
            (size + chunk)
            (slice data_in (pos + chunk) left)
            r')
    → (r' : RingBuffer) × (write_loop fuel
          (stored r (slice data_in pos chunk) chunk)
          data_in
          (pos + chunk)
          left
        ≡ ok r')
      × Wrote r size (slice data_in pos need) r'
next_rounds fuel r data_in pos chunk left need size e inside first (r', runs, rest) = (
  r',
  runs,
  Wrote-append r (stored r (slice data_in pos chunk) chunk) r' size chunk (slice data_in pos chunk)
      (slice data_in (pos + chunk) left) (slice data_in pos need)
      (length-slice data_in pos chunk inside)
      (ap (λ n. slice data_in pos n) (sym e) ∙ slice-split data_in pos chunk left) first rest,
)

-- The loop ends within one round for each byte, and has then copied `data[pos .. pos + need)`.
pub write_loop_lem :
    (fuel : ℕ) (r : RingBuffer) (data_in : List ℕ) (pos need size : ℕ)
    → IsValid (sized r size)
    → size + need ≤ r.capacity
    → pos + need ≤ length data_in
    → need < fuel
    → (r' : RingBuffer) × (write_loop fuel r data_in pos need ≡ ok r')
      × Wrote r size (slice data_in pos need) r'
unfolding write_loop
write_loop_lem zero r data_in pos need size v h inside f = absurd (omega arith)
write_loop_lem (suc fuel) r data_in pos zero size v h inside f = (
  r,
  refl,
  record {
    valid = subst (λ k. IsValid (sized r k)) (sym (add-zero size)) v;
    bytes =
        ap (λ k. contents (sized r k)) (add-zero size) ∙ sym (append-nil (contents (sized r size)));
    same_size = refl;
    same_capacity = refl;
    same_tail = refl;
  },
)
write_loop_lem (suc fuel) r data_in pos (suc need) size v h inside f =
    elim (Bool-cases (ltb chunk (suc need))) [
      | inl more ↦
          rw
            (
              busy,
              more,
              write_chunk_lem r size data_in pos chunk v bounds.0
                  (omega (arith, ltb→lt chunk (suc need))),
            )
            (next_rounds fuel r data_in pos chunk (suc need - chunk) (suc need) size
              (omega (arith, ltb→lt chunk (suc need))) (omega (arith, ltb→lt chunk (suc need)))
              (stored-Wrote r size chunk (slice data_in pos chunk) v
                (length-slice data_in pos chunk (omega (arith, ltb→lt chunk (suc need)))) bounds.1
                bounds.0)
              (write_loop_lem fuel (stored r (slice data_in pos chunk) chunk) data_in (pos + chunk)
                (suc need - chunk) (size + chunk)
                (stored-IsValid r size chunk (slice data_in pos chunk) v bounds.1)
                (omega (arith, ltb→lt chunk (suc need))) (omega (arith, ltb→lt chunk (suc need)))
                (omega (arith, ltb→lt chunk (suc need), bounds))))
      | inr last ↦
          rw (busy, last)
            (last_round r data_in pos (suc need) size v h inside
              (omega (arith, ltb→ge chunk (suc need), bounds)))
    ]
  where
    chunk : ℕ
    chunk = get_chunk_write_size r

    bounds : (r.head_pos + chunk ≤ r.capacity) × (size + chunk ≤ r.capacity) × (0 < chunk)
    bounds = chunk_bounds r size v (omega arith)

    busy : ltb 0 (suc need) ≡ true
    busy = lt→ltb 0 (suc need) (omega arith)

finish_write :
    (r : RingBuffer) (xs : List ℕ) (n : ℕ)
    → length xs ≡ n
    → (m : Outcome RingBuffer) → ((r' : RingBuffer) × (m ≡ ok r') × Wrote r r.size xs r')
    → (r' : RingBuffer) × (◌>>=◌ {B = Bool × RingBuffer} m (λ q. ok (true, sized q (q.size + n)))
        ≡ ok (true, r'))
      × IsValid r'
      × (contents r' ≡ contents r ++ xs)
      × (r'.capacity ≡ r.capacity)
      × (r'.tail_pos ≡ r.tail_pos)
finish_write r xs n e m (r', runs, w) = (
  sized r' (r'.size + n),
  rw runs,
  subst (λ k. IsValid (sized r' k)) total w.valid,
  ap (λ k. contents (sized r' k)) (sym total) ∙ w.bytes,
  w.same_capacity,
  w.same_tail,
)
  where
    total : r.size + length xs ≡ r'.size + n
    total = omega (arith, w.same_size)

-- `WriteBuffer` on a well formed buffer, given `write_size` readable bytes and more rounds than
-- bytes: if the free space is too small it returns false and changes nothing; otherwise it returns
-- true, the first `write_size` bytes of the data stand behind the bytes that were there, the buffer
-- is well formed, and its capacity and tail are as they were.
pub write_buffer_lem :
    (fuel : ℕ) (r : RingBuffer) (data_in : List ℕ) (write_size : ℕ)
    → IsValid r
    → write_size ≤ length data_in
    → write_size < fuel
    → ((r.capacity < r.size + write_size)
        × (write_buffer fuel r data_in write_size ≡ ok (false, r)))
      ⊎ ((r' : RingBuffer) × (write_buffer fuel r data_in write_size ≡ ok (true, r'))
          × IsValid r'
          × (contents r' ≡ contents r ++ take write_size data_in)
          × (r'.capacity ≡ r.capacity)
          × (r'.tail_pos ≡ r.tail_pos))
unfolding write_buffer
write_buffer_lem fuel r data_in write_size v inside f =
    elim (Bool-cases (ltb (r.capacity - r.size) write_size)) [
      | inl small ↦ inl (omega (arith, ltb→lt (r.capacity - r.size) write_size), rw small)
      | inr fits ↦ inr (
          rw fits (
            finish_write r (take write_size data_in) write_size
              (length-slice data_in 0 write_size (omega arith))
              (write_loop fuel r data_in 0 write_size)
              (write_loop_lem fuel r data_in 0 write_size r.size v
                (omega (arith, v.fits, ltb→ge (r.capacity - r.size) write_size)) (omega arith) f)))
    ]

-- Bytes that a receive put at the head, before `OnWriteBuffer` counts them.
abbrev pub received : RingBuffer → List ℕ → RingBuffer
received r xs = record r { buffer = blit r.buffer r.head_pos xs }

-- A receive into the chunk that `GetWriteBuf` and `GetChunkWriteSize` name, of a well formed buffer
-- that is not full, and then `OnWriteBuffer` with the number of bytes received: it returns true, the
-- bytes stand behind those that were there, and the buffer is well formed.
pub on_write_buffer-received :
    (r : RingBuffer) (xs : List ℕ)
    → IsValid r
    → r.size < r.capacity
    → length xs ≤ get_chunk_write_size r
    → ((on_write_buffer (received r xs) (length xs)).0 ≡ true)
      × IsValid (on_write_buffer (received r xs) (length xs)).1
      × (contents (on_write_buffer (received r xs) (length xs)).1 ≡ contents r ++ xs)
unfolding on_write_buffer
on_write_buffer-received r xs v room h =
    rw (ge→ltb (r.capacity - r.size) (length xs) (omega (arith, bounds))) (
      refl,
      stored-IsValid r r.size (length xs) xs v (omega (arith, bounds)),
      contents-stored r r.size (length xs) xs v refl (omega (arith, bounds))
          (omega (arith, bounds)),
    )
  where
    bounds :
        (r.head_pos + get_chunk_write_size r ≤ r.capacity)
        × (r.size + get_chunk_write_size r ≤ r.capacity)
        × (0 < get_chunk_write_size r)
    bounds = chunk_bounds r r.size v room

-- `OnWriteBuffer` keeps a well formed buffer well formed, whatever it is given; it returns false and
-- changes nothing exactly when the free space is too small.
pub on_write_buffer-IsValid :
    (r : RingBuffer) (write_size : ℕ)
    → IsValid r
    → IsValid (on_write_buffer r write_size).1
      × (((on_write_buffer r write_size).0 ≡ false) ↔ (r.capacity < r.size + write_size))
      × ((on_write_buffer r write_size).0 ≡ false → (on_write_buffer r write_size).1 ≡ r)
unfolding on_write_buffer
on_write_buffer-IsValid r write_size v =
    ground (arith, mod-shift r.head_pos r.tail_pos r.size write_size r.capacity v.head_at)
