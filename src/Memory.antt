-- ===== src/Memory.antt =====
-- `std::memcpy` on memory that is a list of bytes. A call that reads or writes outside its memory is
-- undefined behaviour, and so is a call whose two ranges overlap.
use rio_iocp_server.Prelude.{
  ℕ, ◌+◌, ◌≤◌, ◌≡◌, refl, ap, ◌∙◌, List, ◌++◌, ◌&&◌, ◌||◌, leb, if◌then◌else◌, Outcome, ok, ub,
  arith, length, take, drop, blit, length-take, length-drop, Bool, take-split, take-append,
  drop-append, sym, drop-drop,
}

-- The `n` bytes from index `j` on.
abbrev pub slice {ℓ} : {A : Type ℓ} → List A → ℕ → ℕ → List A
slice src j n = take n (drop j src)

-- `memcpy(&dst[i], &src[j], n)` between two objects.
abbrev pub memcpy : List ℕ → ℕ → List ℕ → ℕ → ℕ → Outcome (List ℕ)
memcpy dst i src j n =
    if leb (i + n) (length dst) && leb (j + n) (length src)
    then ok (blit dst i (slice src j n))
    else ub

abbrev pub is_disjoint : ℕ → ℕ → ℕ → Bool
is_disjoint i j n = leb (i + n) j || leb (j + n) i

-- `memcpy(&buf[i], &buf[j], n)` inside one object.
abbrev pub memcpy_within : List ℕ → ℕ → ℕ → ℕ → Outcome (List ℕ)
memcpy_within buf i j n = if is_disjoint i j n then memcpy buf i buf j n else ub

pub length-slice {ℓ} :
    {A : Type ℓ} (src : List A) (j n : ℕ) → j + n ≤ length src → length (slice src j n) ≡ n
length-slice src j n h = omega (arith, length-take n (drop j src), length-drop j src)

-- Two pieces that meet are one piece.
pub slice-split {ℓ} :
    {A : Type ℓ} (src : List A) (j a b : ℕ)
    → slice src j (a + b) ≡ slice src j a ++ slice src (j + a) b
slice-split src j a b =
    take-split a b (a + b) (drop j src) refl
    ∙ ap (λ rest. take a (drop j src) ++ take b rest) (drop-drop j a (j + a) src refl)

-- A piece that is known as two lists shows each of them.
pub slice-prefix {ℓ} :
    {A : Type ℓ} (src : List A) (j a b n : ℕ) (xs ys : List A)
    → n ≡ a + b
    → j + n ≤ length src
    → length xs ≡ a
    → slice src j n ≡ xs ++ ys
    → slice src j a ≡ xs
slice-prefix src j a b n xs ys e inside l p =
    sym (
      take-append a (slice src j a) (slice src (j + a) b)
        (sym (length-slice src j a (omega arith))))
    ∙ ap (take a) (sym (slice-split src j a b) ∙ ap (λ k. slice src j k) (sym e) ∙ p)
    ∙ take-append a xs ys (sym l)

pub slice-suffix {ℓ} :
    {A : Type ℓ} (src : List A) (j a b n : ℕ) (xs ys : List A)
    → n ≡ a + b
    → j + n ≤ length src
    → length xs ≡ a
    → slice src j n ≡ xs ++ ys
    → slice src (j + a) b ≡ ys
slice-suffix src j a b n xs ys e inside l p =
    sym (
      drop-append a (slice src j a) (slice src (j + a) b)
        (sym (length-slice src j a (omega arith))))
    ∙ ap (drop a) (sym (slice-split src j a b) ∙ ap (λ k. slice src j k) (sym e) ∙ p)
    ∙ drop-append a xs ys (sym l)
