-- ===== src/RingBuffer/Contents.antt =====
-- The bytes that a ring buffer holds, oldest first, and when a buffer is well formed.
use rio_iocp_server.Prelude.{
  ℕ, ◌+◌, ◌%◌, ◌≤◌, ◌<◌, ◌≡◌, refl, ap, ◌∙◌, ◌⊎◌, inl, inr, List, ◌++◌, arith, length, get_or,
  tabulate, blit, length-tabulate, tabulate-join, tabulate-get_or, get_or-blit_in,
  get_or-blit_below, get_or-blit_above, mod_cases, mod-shift, sym, get_or-take, get_or-drop, drop,
  tabulate-ext,
}
use native.Mathlib.Nat.{mod-eq_of_lt}
use rio_iocp_server.Memory.{slice, length-slice}
use rio_iocp_server.RingBuffer.{RingBuffer}

-- The byte that stands `i` places behind the index `tail`, going round at `cap`.
abbrev pub cell : List ℕ → ℕ → ℕ → ℕ → ℕ
cell buffer cap tail i = get_or buffer ((tail + i) % cap) 0

abbrev pub contents : RingBuffer → List ℕ
contents r = tabulate r.size (cell r.buffer r.capacity r.tail_pos)

pub record IsValid (r : RingBuffer) : Type 0 where
  pub positive : 0 < r.capacity
  pub storage : length r.buffer ≡ r.capacity
  pub tail_in : r.tail_pos < r.capacity
  pub fits : r.size ≤ r.capacity
  pub head_at : r.head_pos ≡ (r.tail_pos + r.size) % r.capacity

pub length-contents : (r : RingBuffer) → length (contents r) ≡ r.size
length-contents r = length-tabulate r.size (cell r.buffer r.capacity r.tail_pos)

pub head_in : {r : RingBuffer} → IsValid r → r.head_pos < r.capacity
head_in v = omega arith

-- Bytes stored in the free cells from the head on, up to the end of the memory, come behind the
-- bytes that are there.
module _ (buffer : List ℕ) (cap tail size head : ℕ) (xs : List ℕ) (storage : length buffer ≡ cap)
    (tail_in : tail < cap) (free : size + length xs ≤ cap) (head_at : head ≡ (tail + size) % cap)
    (straight : head + length xs ≤ cap) where
  untouched : (i : ℕ) → i < size → ((tail + i) % cap < head) ⊎ (head + length xs ≤ (tail + i) % cap)
  untouched i l = omega (arith, mod_cases (tail + i) cap, mod_cases (tail + size) cap)

  old_cell : (i : ℕ) → i < size → cell (blit buffer head xs) cap tail i ≡ cell buffer cap tail i
  old_cell i l = elim (untouched i l) [
    | inl below ↦ get_or-blit_below buffer head xs ((tail + i) % cap) 0 below
    | inr above ↦ get_or-blit_above buffer head xs ((tail + i) % cap) 0 above
  ]

  new_cell :
      (i : ℕ) → i < length xs → cell (blit buffer head xs) cap tail (size + i) ≡ get_or xs i 0
  new_cell i l =
      get_or-blit_in buffer head xs ((tail + (size + i)) % cap) i 0 (omega arith)
        (omega (arith, mod_cases (tail + (size + i)) cap, mod_cases (tail + size) cap)) l

  pub cells-blit :
      tabulate (size + length xs) (cell (blit buffer head xs) cap tail)
      ≡ tabulate size (cell buffer cap tail) ++ xs
  cells-blit =
      tabulate-join size (length xs) (size + length xs) (cell (blit buffer head xs) cap tail)
        (cell buffer cap tail) (λ i. get_or xs i 0) refl old_cell new_cell
      ∙ ap (λ l. tabulate size (cell buffer cap tail) ++ l) (tabulate-get_or xs 0)

module _ (buffer : List ℕ) (cap tail : ℕ) where
  cell_shift : (n i : ℕ) → cell buffer cap tail (n + i) ≡ cell buffer cap ((tail + n) % cap) i
  cell_shift n i =
      ap (λ k. get_or buffer k 0) (sym (mod-shift ((tail + n) % cap) tail n i cap refl))

  -- The cells from the tail on, and those from a later tail on.
  pub cells-split :
      (size n left : ℕ)
      → size ≡ n + left
      → tabulate size (cell buffer cap tail)
        ≡ tabulate n (cell buffer cap tail) ++ tabulate left (cell buffer cap ((tail + n) % cap))
  cells-split size n left e =
      tabulate-join n left size (cell buffer cap tail) (cell buffer cap tail)
        (cell buffer cap ((tail + n) % cap)) e (λ i l. refl) (λ i l. cell_shift n i)

  -- Cells that do not go round the end are a piece of the memory.
  pub cells-slice :
      (n : ℕ)
      → length buffer ≡ cap
      → tail + n ≤ cap
      → slice buffer tail n ≡ tabulate n (cell buffer cap tail)
  cells-slice n storage straight =
      sym (tabulate-get_or (slice buffer tail n) 0)
      ∙ ap (λ k. tabulate k (λ i. get_or (slice buffer tail n) i 0))
          (length-slice buffer tail n (omega arith))
      ∙ tabulate-ext n (λ i. get_or (slice buffer tail n) i 0) (cell buffer cap tail) same
    where
      same : (i : ℕ) → i < n → get_or (slice buffer tail n) i 0 ≡ cell buffer cap tail i
      same i l =
          get_or-take n (drop tail buffer) i 0 l
          ∙ get_or-drop tail buffer i 0
          ∙ ap (λ k. get_or buffer k 0) (sym (mod-eq_of_lt {n = tail + i} {m = cap} (omega arith)))
