-- ===== src/Prelude/Lists.antt =====
-- Lists measured and indexed by native numbers, under the library's names, and C memory as a list
-- of bytes.
use Prim.Native.Nat.{ℕ, zero, suc, ◌+◌, ◌-◌, ◌≤◌, ◌<◌, min}
use mathlib.Core.Path.{◌≡◌, refl, ap, ap₂, ◌∙◌}
use mathlib.Core.List.{List, [], ◌∷◌, ◌++◌}
use native.Mathlib.Omega.{arith}

module _ {ℓ} {A : Type ℓ} where
  abbrev pub length : List A → ℕ
  length [] = 0
  length (x ∷ xs) = suc (length xs)

  abbrev pub get_or : List A → ℕ → A → A
  get_or [] i d = d
  get_or (x ∷ xs) zero d = x
  get_or (x ∷ xs) (suc i) d = get_or xs i d

  abbrev pub take : ℕ → List A → List A
  take zero xs = []
  take (suc n) [] = []
  take (suc n) (x ∷ xs) = x ∷ take n xs

  abbrev pub drop : ℕ → List A → List A
  drop zero xs = xs
  drop (suc n) [] = []
  drop (suc n) (x ∷ xs) = drop n xs

  abbrev pub replicate : ℕ → A → List A
  replicate zero a = []
  replicate (suc n) a = a ∷ replicate n a

  -- The list of `f 0`, ..., `f (n - 1)`.
  abbrev pub tabulate : ℕ → (ℕ → A) → List A
  tabulate zero f = []
  tabulate (suc n) f = f 0 ∷ tabulate n (λ i. f (suc i))

  -- The memory `buf` after the bytes `xs` are stored from index `i` on.
  unfoldable pub blit : List A → ℕ → List A → List A
  blit [] i xs = []
  blit (b ∷ buf) zero [] = b ∷ buf
  blit (b ∷ buf) zero (x ∷ xs) = x ∷ blit buf zero xs
  blit (b ∷ buf) (suc i) xs = b ∷ blit buf i xs

  pub length-append : (xs ys : List A) → length (xs ++ ys) ≡ length xs + length ys
  length-append [] ys = omega arith
  length-append (x ∷ xs) ys = omega (arith, length-append xs ys)

  pub length-take : (n : ℕ) (xs : List A) → length (take n xs) ≡ min n (length xs)
  length-take zero xs = omega arith
  length-take (suc n) [] = omega arith
  length-take (suc n) (x ∷ xs) = omega (arith, length-take n xs)

  pub length-drop : (n : ℕ) (xs : List A) → length (drop n xs) ≡ length xs - n
  length-drop zero xs = omega arith
  length-drop (suc n) [] = omega arith
  length-drop (suc n) (x ∷ xs) = omega (arith, length-drop n xs)

  pub take-append-drop : (n : ℕ) (xs : List A) → take n xs ++ drop n xs ≡ xs
  take-append-drop zero xs = refl
  take-append-drop (suc n) [] = refl
  take-append-drop (suc n) (x ∷ xs) = ap (λ l. x ∷ l) (take-append-drop n xs)

  pub length-replicate : (n : ℕ) (a : A) → length (replicate n a) ≡ n
  length-replicate zero a = refl
  length-replicate (suc n) a = ap suc (length-replicate n a)

  pub length-blit : (buf : List A) (i : ℕ) (xs : List A) → length (blit buf i xs) ≡ length buf
  unfolding blit
  length-blit [] i xs = refl
  length-blit (b ∷ buf) zero [] = refl
  length-blit (b ∷ buf) zero (x ∷ xs) = ap suc (length-blit buf zero xs)
  length-blit (b ∷ buf) (suc i) xs = ap suc (length-blit buf i xs)

  -- A store is read back inside its range.
  pub get_or-blit_in :
      (buf : List A) (i : ℕ) (xs : List A) (j k : ℕ) (d : A)
      → i + length xs ≤ length buf
      → j ≡ i + k
      → k < length xs
      → get_or (blit buf i xs) j d ≡ get_or xs k d
  unfolding blit
  get_or-blit_in [] i xs j k d h e l = absurd (omega arith)
  get_or-blit_in (b ∷ buf) zero [] j k d h e l = absurd (omega arith)
  get_or-blit_in (b ∷ buf) zero (x ∷ xs) zero zero d h e l = refl
  get_or-blit_in (b ∷ buf) zero (x ∷ xs) zero (suc k) d h e l = absurd (omega arith)
  get_or-blit_in (b ∷ buf) zero (x ∷ xs) (suc j) zero d h e l = absurd (omega arith)
  get_or-blit_in (b ∷ buf) zero (x ∷ xs) (suc j) (suc k) d h e l =
      get_or-blit_in buf zero xs j k d (omega arith) (omega arith) (omega arith)
  get_or-blit_in (b ∷ buf) (suc i) xs zero k d h e l = absurd (omega arith)
  get_or-blit_in (b ∷ buf) (suc i) xs (suc j) k d h e l =
      get_or-blit_in buf i xs j k d (omega arith) (omega arith) (omega arith)

  -- It changes nothing below its range, nor above.
  pub get_or-blit_below :
      (buf : List A) (i : ℕ) (xs : List A) (j : ℕ) (d : A)
      → j < i
      → get_or (blit buf i xs) j d ≡ get_or buf j d
  unfolding blit
  get_or-blit_below [] i xs j d h = refl
  get_or-blit_below (b ∷ buf) zero xs j d h = absurd (omega arith)
  get_or-blit_below (b ∷ buf) (suc i) xs zero d h = refl
  get_or-blit_below (b ∷ buf) (suc i) xs (suc j) d h = get_or-blit_below buf i xs j d (omega arith)

  pub get_or-blit_above :
      (buf : List A) (i : ℕ) (xs : List A) (j : ℕ) (d : A)
      → i + length xs ≤ j
      → get_or (blit buf i xs) j d ≡ get_or buf j d
  unfolding blit
  get_or-blit_above [] i xs j d h = refl
  get_or-blit_above (b ∷ buf) zero [] j d h = refl
  get_or-blit_above (b ∷ buf) zero (x ∷ xs) zero d h = absurd (omega arith)
  get_or-blit_above (b ∷ buf) zero (x ∷ xs) (suc j) d h =
      get_or-blit_above buf zero xs j d (omega arith)
  get_or-blit_above (b ∷ buf) (suc i) xs zero d h = absurd (omega arith)
  get_or-blit_above (b ∷ buf) (suc i) xs (suc j) d h = get_or-blit_above buf i xs j d (omega arith)

  pub get_or-drop :
      (n : ℕ) (xs : List A) (i : ℕ) (d : A) → get_or (drop n xs) i d ≡ get_or xs (n + i) d
  get_or-drop zero xs i d = ap (λ k. get_or xs k d) (omega arith)
  get_or-drop (suc n) [] i d = refl
  get_or-drop (suc n) (x ∷ xs) i d =
      get_or-drop n xs i d ∙ ap (λ k. get_or (x ∷ xs) k d) (suc_shift n i)
    where
      suc_shift : (n i : ℕ) → suc (n + i) ≡ suc n + i
      suc_shift n i = omega arith

  pub get_or-take :
      (n : ℕ) (xs : List A) (i : ℕ) (d : A) → i < n → get_or (take n xs) i d ≡ get_or xs i d
  get_or-take zero xs i d h = absurd (omega arith)
  get_or-take (suc n) [] i d h = refl
  get_or-take (suc n) (x ∷ xs) zero d h = refl
  get_or-take (suc n) (x ∷ xs) (suc i) d h = get_or-take n xs i d (omega arith)

  pub length-tabulate : (n : ℕ) (f : ℕ → A) → length (tabulate n f) ≡ n
  length-tabulate zero f = refl
  length-tabulate (suc n) f = ap suc (length-tabulate n (λ i. f (suc i)))

  pub tabulate-ext :
      (n : ℕ) (f g : ℕ → A) → ((i : ℕ) → i < n → f i ≡ g i) → tabulate n f ≡ tabulate n g
  tabulate-ext zero f g h = refl
  tabulate-ext (suc n) f g h =
      ap₂ ◌∷◌ (h 0 (omega arith))
        (tabulate-ext n (λ i. f (suc i)) (λ i. g (suc i)) (λ i l. h (suc i) (omega arith)))

  pub tabulate-get_or : (xs : List A) (d : A) → tabulate (length xs) (λ i. get_or xs i d) ≡ xs
  tabulate-get_or [] d = refl
  tabulate-get_or (x ∷ xs) d = ap (λ l. x ∷ l) (tabulate-get_or xs d)

  -- A table is a shorter one with a second table behind it.
  pub tabulate-join :
      (m n k : ℕ) (h f g : ℕ → A)
      → k ≡ m + n
      → ((i : ℕ) → i < m → h i ≡ f i)
      → ((i : ℕ) → i < n → h (m + i) ≡ g i)
      → tabulate k h ≡ tabulate m f ++ tabulate n g
  tabulate-join zero n k h f g e p q =
      ap (λ c. tabulate c h) whole ∙ tabulate-ext n h g (λ i l. ap h (from_zero i) ∙ q i l)
    where
      whole : k ≡ n
      whole = omega arith

      from_zero : (i : ℕ) → i ≡ 0 + i
      from_zero i = omega arith
  tabulate-join (suc m) n zero h f g e p q = absurd (omega arith)
  tabulate-join (suc m) n (suc k) h f g e p q = ap₂ ◌∷◌ (p 0 (omega arith)) (
      tabulate-join m n k (λ i. h (suc i)) (λ i. f (suc i)) g (omega arith)
        (λ i l. p (suc i) (omega arith)) (λ i l. ap h (past_head i) ∙ q i l))
    where
      past_head : (i : ℕ) → suc (m + i) ≡ suc m + i
      past_head i = omega arith

  pub take-split :
      (a b k : ℕ) (xs : List A) → k ≡ a + b → take k xs ≡ take a xs ++ take b (drop a xs)
  take-split zero b k xs e = ap (λ n. take n xs) whole
    where
      whole : k ≡ b
      whole = omega arith
  take-split (suc a) b zero xs e = absurd (omega arith)
  take-split (suc a) zero (suc k) [] e = refl
  take-split (suc a) (suc b) (suc k) [] e = refl
  take-split (suc a) b (suc k) (x ∷ xs) e = ap (λ l. x ∷ l) (take-split a b k xs (omega arith))

  pub drop-nil : (n : ℕ) → drop n [] ≡ []
  drop-nil zero = refl
  drop-nil (suc n) = refl

  pub drop-drop : (a b k : ℕ) (xs : List A) → k ≡ a + b → drop b (drop a xs) ≡ drop k xs
  drop-drop zero b k xs e = ap (λ n. drop n xs) whole
    where
      whole : b ≡ k
      whole = omega arith
  drop-drop (suc a) b zero xs e = absurd (omega arith)
  drop-drop (suc a) b (suc k) [] e = drop-nil b
  drop-drop (suc a) b (suc k) (x ∷ xs) e = drop-drop a b k xs (omega arith)

  pub take-append : (n : ℕ) (xs ys : List A) → n ≡ length xs → take n (xs ++ ys) ≡ xs
  take-append zero [] ys e = refl
  take-append zero (x ∷ xs) ys e = absurd (omega arith)
  take-append (suc n) [] ys e = absurd (omega arith)
  take-append (suc n) (x ∷ xs) ys e = ap (λ l. x ∷ l) (take-append n xs ys (omega arith))

  pub drop-append : (n : ℕ) (xs ys : List A) → n ≡ length xs → drop n (xs ++ ys) ≡ ys
  drop-append zero [] ys e = refl
  drop-append zero (x ∷ xs) ys e = absurd (omega arith)
  drop-append (suc n) [] ys e = absurd (omega arith)
  drop-append (suc n) (x ∷ xs) ys e = drop-append n xs ys (omega arith)

  pub drop-append_le :
      (n : ℕ) (xs ys : List A) → n ≤ length xs → drop n (xs ++ ys) ≡ drop n xs ++ ys
  drop-append_le zero xs ys h = refl
  drop-append_le (suc n) [] ys h = absurd (omega arith)
  drop-append_le (suc n) (x ∷ xs) ys h = drop-append_le n xs ys (omega arith)

  pub take-append_le : (n : ℕ) (xs ys : List A) → n ≤ length xs → take n (xs ++ ys) ≡ take n xs
  take-append_le zero xs ys h = refl
  take-append_le (suc n) [] ys h = absurd (omega arith)
  take-append_le (suc n) (x ∷ xs) ys h = ap (λ l. x ∷ l) (take-append_le n xs ys (omega arith))

  pub take-length : (n : ℕ) (xs : List A) → length xs ≤ n → take n xs ≡ xs
  take-length zero [] h = refl
  take-length zero (x ∷ xs) h = absurd (omega arith)
  take-length (suc n) [] h = refl
  take-length (suc n) (x ∷ xs) h = ap (λ l. x ∷ l) (take-length n xs (omega arith))

  -- A store from index `i` on, as a list: what is before it, the bytes stored, what is behind them.
  pub blit-parts :
      (buf : List A) (i : ℕ) (xs : List A)
      → i + length xs ≤ length buf
      → blit buf i xs ≡ take i buf ++ (xs ++ drop (i + length xs) buf)
  unfolding blit
  blit-parts [] zero [] h = refl
  blit-parts [] zero (x ∷ xs) h = absurd (omega arith)
  blit-parts [] (suc i) xs h = absurd (omega arith)
  blit-parts (b ∷ buf) zero [] h = refl
  blit-parts (b ∷ buf) zero (x ∷ xs) h =
      ap (λ l. x ∷ l)
        (blit-parts buf zero xs (omega arith)
          ∙ ap (λ n. xs ++ drop n buf) (from_zero (length xs))
          ∙ ap (λ n. xs ++ drop n (b ∷ buf)) (past_head (length xs)))
    where
      from_zero : (n : ℕ) → 0 + n ≡ n
      from_zero n = omega arith

      past_head : (n : ℕ) → suc n ≡ 0 + suc n
      past_head n = omega arith
  blit-parts (b ∷ buf) (suc i) xs h =
      ap (λ l. b ∷ l)
        (blit-parts buf i xs (omega arith)
          ∙ ap (λ n. take i buf ++ (xs ++ drop n (b ∷ buf))) (past_head (length xs)))
    where
      past_head : (n : ℕ) → suc (i + n) ≡ suc i + n
      past_head n = omega arith

  -- Two stores side by side are one store.
  pub blit-blit :
      (buf : List A) (i j : ℕ) (xs ys : List A)
      → j ≡ i + length xs
      → blit (blit buf i xs) j ys ≡ blit buf i (xs ++ ys)
  unfolding blit
  blit-blit [] i j xs ys e = refl
  blit-blit (b ∷ buf) zero zero [] ys e = refl
  blit-blit (b ∷ buf) zero (suc j) [] ys e = absurd (omega arith)
  blit-blit (b ∷ buf) zero zero (x ∷ xs) ys e = absurd (omega arith)
  blit-blit (b ∷ buf) zero (suc j) (x ∷ xs) ys e =
      ap (λ l. x ∷ l) (blit-blit buf zero j xs ys (omega arith))
  blit-blit (b ∷ buf) (suc i) zero xs ys e = absurd (omega arith)
  blit-blit (b ∷ buf) (suc i) (suc j) xs ys e =
      ap (λ l. b ∷ l) (blit-blit buf i j xs ys (omega arith))

  pub blit-nil : (buf : List A) (i : ℕ) → blit buf i [] ≡ buf
  unfolding blit
  blit-nil [] i = refl
  blit-nil (b ∷ buf) zero = refl
  blit-nil (b ∷ buf) (suc i) = ap (λ l. b ∷ l) (blit-nil buf i)

  pub get_or-append_left :
      (xs ys : List A) (i : ℕ) (d : A) → i < length xs → get_or (xs ++ ys) i d ≡ get_or xs i d
  get_or-append_left [] ys i d h = absurd (omega arith)
  get_or-append_left (x ∷ xs) ys zero d h = refl
  get_or-append_left (x ∷ xs) ys (suc i) d h = get_or-append_left xs ys i d (omega arith)

  abbrev pub All {κ} : (A → Type κ) → List A → Type κ
  All P [] = Unit
  All P (x ∷ xs) = P x × All P xs
