-- ===== src/Game/Position/Loops.antt =====
-- Room.cpp: the sectors that the loops over the adjacent sectors visit.
use rio_iocp_server.Prelude.{
  ℕ, zero, suc, ◌+◌, ◌-◌, ◌*◌, ◌≤◌, ◌<◌, ◌≡◌, refl, sym, ap, ◌∙◌, ◌⊎◌, inl, inr, false, List, [],
  ◌∷◌, ◌++◌, tabulate, ℤ, pos, pos_part, sub_ℕ, ◌+ℤ◌, arith, if_lem, subst,
}
use rio_iocp_server.Game.Position.{
  sector_list_size, adjacent_row, adjacent_rows, downwards, upwards, is_outside,
}

-- The value is one of the list.
unfoldable pub Among : {A : Type 0} → A → List A → Type 0
Among a [] = ⊥
Among a (b ∷ bs) = (a ≡ b) ⊎ Among a bs

pub Among-append_left : {A : Type 0} (a : A) (xs ys : List A) → Among a xs → Among a (xs ++ ys)
unfolding Among
Among-append_left a [] ys h = absurd h
Among-append_left a (x ∷ xs) ys (inl e) = inl e
Among-append_left a (x ∷ xs) ys (inr h) = inr (Among-append_left a xs ys h)

pub Among-append_right : {A : Type 0} (a : A) (xs ys : List A) → Among a ys → Among a (xs ++ ys)
unfolding Among
Among-append_right a [] ys h = h
Among-append_right a (x ∷ xs) ys h = inr (Among-append_right a xs ys h)

pub Among-append :
    {A : Type 0} (a : A) (xs ys : List A) → Among a (xs ++ ys) → Among a xs ⊎ Among a ys
unfolding Among
Among-append a [] ys h = inr h
Among-append a (x ∷ xs) ys (inl e) = inl (inl e)
Among-append a (x ∷ xs) ys (inr h) = elim (Among-append a xs ys h) [
  | inl l ↦ inl (inr l)
  | inr r ↦ inr r
]

Among-tabulate : {A : Type 0} (n : ℕ) (f : ℕ → A) (i : ℕ) → i < n → Among (f i) (tabulate n f)
unfolding Among
Among-tabulate zero f i h = absurd (omega (arith, h))
Among-tabulate (suc n) f zero h = inl refl
Among-tabulate (suc n) f (suc i) h = inr (Among-tabulate n (λ j. f (suc j)) i (omega (arith, h)))

in_room :
    (sy sx : ℕ)
    → sy < sector_list_size
    → sx < sector_list_size
    → is_outside (pos sy) (pos sx) ≡ false
unfolding is_outside
in_room sy sx h k = ground (arith, h, k)

row_covers :
    (y x sy sx : ℕ) (dy dx : ℤ) (dxs : List ℤ)
    → Among dx dxs
    → pos y +ℤ dy ≡ pos sy
    → pos x +ℤ dx ≡ pos sx
    → sy < sector_list_size
    → sx < sector_list_size
    → Among (sy, sx) (adjacent_row (y, x) dy dxs)
unfolding Among adjacent_row
row_covers y x sy sx dy dx [] h ey ex ly lx = absurd h
row_covers y x sy sx dy dx (d ∷ dxs) (inl e) ey ex ly lx =
    rw (ey, sym (ap (λ t. pos x +ℤ t) e) ∙ ex, in_room sy sx ly lx) (inl refl)
row_covers y x sy sx dy dx (d ∷ dxs) (inr h) ey ex ly lx =
    if_lem (Among (sy, sx)) (is_outside (pos y +ℤ dy) (pos x +ℤ d)) (adjacent_row (y, x) dy dxs)
      ((pos_part (pos y +ℤ dy), pos_part (pos x +ℤ d)) ∷ adjacent_row (y, x) dy dxs)
      (λ out. row_covers y x sy sx dy dx dxs h ey ex ly lx)
      (λ within. inr (row_covers y x sy sx dy dx dxs h ey ex ly lx))

rows_cover :
    (y x sy sx : ℕ) (dy dx : ℤ) (dys dxs : List ℤ)
    → Among dy dys
    → Among dx dxs
    → pos y +ℤ dy ≡ pos sy
    → pos x +ℤ dx ≡ pos sx
    → sy < sector_list_size
    → sx < sector_list_size
    → Among (sy, sx) (adjacent_rows (y, x) dys dxs)
unfolding Among adjacent_rows
rows_cover y x sy sx dy dx [] dxs h k ey ex ly lx = absurd h
rows_cover y x sy sx dy dx (d ∷ dys) dxs (inl e) k ey ex ly lx =
    Among-append_left (sy, sx) (adjacent_row (y, x) d dxs) (adjacent_rows (y, x) dys dxs)
      (row_covers y x sy sx d dx dxs k (sym (ap (λ t. pos y +ℤ t) e) ∙ ey) ex ly lx)
rows_cover y x sy sx dy dx (d ∷ dys) dxs (inr h) k ey ex ly lx =
    Among-append_right (sy, sx) (adjacent_row (y, x) d dxs) (adjacent_rows (y, x) dys dxs)
      (rows_cover y x sy sx dy dx dys dxs h k ey ex ly lx)

-- The offset from a cell to another one is gone through.
offset_up : (reach y sy : ℕ) → sy ≤ y + reach → y ≤ sy + reach → Among (sub_ℕ sy y) (upwards reach)
offset_up reach y sy h k =
    subst (λ t. Among t (upwards reach)) (ground (arith, h, k))
      (Among-tabulate (2 * reach + 1) (λ i. sub_ℕ i reach) (sy + reach - y) (omega (arith, h, k)))

offset_down :
    (reach y sy : ℕ) → sy ≤ y + reach → y ≤ sy + reach → Among (sub_ℕ sy y) (downwards reach)
offset_down reach y sy h k =
    subst (λ t. Among t (downwards reach)) (ground (arith, h, k))
      (Among-tabulate (2 * reach + 1) (λ i. sub_ℕ reach i) (y + reach - sy) (omega (arith, h, k)))

offset : (y sy : ℕ) → pos y +ℤ sub_ℕ sy y ≡ pos sy
unfolding ◌+ℤ◌
offset y sy = ground arith

pub within_reach :
    (reach y x sy sx : ℕ)
    → sy ≤ y + reach
    → y ≤ sy + reach
    → sx ≤ x + reach
    → x ≤ sx + reach
    → sy < sector_list_size
    → sx < sector_list_size
    → Among (sy, sx) (adjacent_rows (y, x) (downwards reach) (upwards reach))
within_reach reach y x sy sx a b c d ly lx =
    rows_cover y x sy sx (sub_ℕ sy y) (sub_ℕ sx x) (downwards reach) (upwards reach)
      (offset_down reach y sy a b) (offset_up reach x sx c d) (offset y sy) (offset x sx) ly lx

inside :
    (ny nx : ℤ)
    → is_outside ny nx ≡ false
    → (pos_part ny < sector_list_size) × (pos_part nx < sector_list_size)
unfolding is_outside
inside ny nx h = (ground (arith, h), ground (arith, h))

row-inside :
    (idx : ℕ × ℕ) (dy : ℤ) (dxs : List ℤ) (c : ℕ × ℕ)
    → Among c (adjacent_row idx dy dxs)
    → (c.0 < sector_list_size) × (c.1 < sector_list_size)
unfolding adjacent_row Among
row-inside (y, x) dy [] c h = absurd h
row-inside (y, x) dy (dx ∷ dxs) c h =
    let ny = pos y +ℤ dy in
    let nx = pos x +ℤ dx in
    if_lem (λ (l : List (ℕ × ℕ)). Among c l → (c.0 < sector_list_size) × (c.1 < sector_list_size))
      (is_outside ny nx) (adjacent_row (y, x) dy dxs)
      ((pos_part ny, pos_part nx) ∷ adjacent_row (y, x) dy dxs)
      (λ out k. row-inside (y, x) dy dxs c k)
      (λ within k. elim k [
        | inl e ↦
            subst (λ (d : ℕ × ℕ). (d.0 < sector_list_size) × (d.1 < sector_list_size)) (sym e)
              (inside ny nx within)
        | inr old ↦ row-inside (y, x) dy dxs c old
      ])
      h

-- All sectors that the loops over the adjacent sectors visit are sectors of the room, for any sector
-- to begin with and any offsets that the loops go through.
pub adjacent_rows-inside :
    (idx : ℕ × ℕ) (dys dxs : List ℤ) (c : ℕ × ℕ)
    → Among c (adjacent_rows idx dys dxs)
    → (c.0 < sector_list_size) × (c.1 < sector_list_size)
unfolding adjacent_rows Among
adjacent_rows-inside idx [] dxs c h = absurd h
adjacent_rows-inside idx (dy ∷ dys) dxs c h =
    elim (Among-append c (adjacent_row idx dy dxs) (adjacent_rows idx dys dxs) h) [
      | inl l ↦ row-inside idx dy dxs c l
      | inr r ↦ adjacent_rows-inside idx dys dxs c r
    ]
