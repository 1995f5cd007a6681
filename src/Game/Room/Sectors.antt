-- ===== src/Game/Room/Sectors.antt =====
-- The sets of players of the sectors (Room.cpp) after an insertion or a removal.
use rio_iocp_server.Prelude.{
  ℕ, Bool, true, List, ◌≡◌, ◌≢◌, refl, sym, ap, ap₂, ◌∙◌, ◌⊎◌, inl, inr, if◌then◌else◌, if_lem,
  ◌==◌, ◌&&◌, ◌||◌, not, has, insert, erase, has-insert, has-erase, same_id, other_id, arith,
}
pub use rio_iocp_server.Prelude.{at_lem, at_self, at_other}
use rio_iocp_server.Game.Defs.{at_idx}
use rio_iocp_server.Game.Room.{insert_in_sector, erase_from_sector}

at_idx_lem :
    {A : Type 0} (P : A → Type 0) (c : ℕ × ℕ) (a : A) (f : ℕ → ℕ → A) (y x : ℕ)
    → ((y, x) ≡ c → P a)
    → ((y, x) ≢ c → P (f y x))
    → P (at_idx c a f y x)
at_idx_lem P (v, u) a f y x p q =
    if_lem P (y == v) (if x == u then a else f y x) (f y x)
      (λ e.
        if_lem P (x == u) a (f y x) (λ d. p (ap₂ (λ s t. (s, t)) (same_id y v e) (same_id x u d)))
          (λ d. q (λ pair. other_id x u d (ap (λ (c : ℕ × ℕ). c.1) pair))))
      (λ e. q (λ pair. other_id y v e (ap (λ (c : ℕ × ℕ). c.0) pair)))

or_cases : (i j : ℕ) (b : Bool) → ((i == j) || b) ≡ true → (i ≡ j) ⊎ (b ≡ true)
or_cases i j b h = ground (arith, h)

and_cases : (i j : ℕ) (b : Bool) → (not (i == j) && b) ≡ true → (i ≢ j) × (b ≡ true)
and_cases i j b h = (ground (arith, h), ground (arith, h))

pub insert-cases : (i j : ℕ) (s : List ℕ) → has i (insert j s) ≡ true → (i ≡ j) ⊎ (has i s ≡ true)
insert-cases i j s h = or_cases i j (has i s) (sym (has-insert i j s) ∙ h)

pub insert-keeps : (i j : ℕ) (s : List ℕ) → has i s ≡ true → has i (insert j s) ≡ true
insert-keeps i j s h = has-insert i j s ∙ ground (arith, h)

pub insert-has : (i : ℕ) (s : List ℕ) → has i (insert i s) ≡ true
insert-has i s = has-insert i i s ∙ ground arith

pub erase-cases : (i j : ℕ) (s : List ℕ) → has i (erase j s) ≡ true → (i ≢ j) × (has i s ≡ true)
erase-cases i j s h = and_cases i j (has i s) (sym (has-erase i j s) ∙ h)

pub erase-keeps : (i j : ℕ) (s : List ℕ) → i ≢ j → has i s ≡ true → has i (erase j s) ≡ true
erase-keeps i j s n h = has-erase i j s ∙ ground (arith, n, h)

module _ (c : ℕ × ℕ) (id : ℕ) (s : ℕ → ℕ → List ℕ) (y x i : ℕ) where
  pub insert_in_sector-cases :
      has i (insert_in_sector c id s y x) ≡ true
      → ((i ≡ id) × ((y, x) ≡ c)) ⊎ (has i (s y x) ≡ true)
  insert_in_sector-cases =
      at_idx_lem
        (λ (l : List ℕ). has i l ≡ true → ((i ≡ id) × ((y, x) ≡ c)) ⊎ (has i (s y x) ≡ true)) c
        (insert id (s c.0 c.1)) s y x
        (λ e h. elim (insert-cases i id (s c.0 c.1) h) [
          | inl same ↦ inl (same, e)
          | inr old ↦ inr (ap (λ (d : ℕ × ℕ). has i (s d.0 d.1)) e ∙ old)
        ])
        (λ n h. inr h)

  pub insert_in_sector-keeps : has i (s y x) ≡ true → has i (insert_in_sector c id s y x) ≡ true
  insert_in_sector-keeps h =
      at_idx_lem (λ (l : List ℕ). has i l ≡ true) c (insert id (s c.0 c.1)) s y x
        (λ e. insert-keeps i id (s c.0 c.1) (sym (ap (λ (d : ℕ × ℕ). has i (s d.0 d.1)) e) ∙ h))
        (λ n. h)

  pub erase_from_sector-cases :
      has i (erase_from_sector c id s y x) ≡ true → ((y, x) ≡ c → i ≢ id) × (has i (s y x) ≡ true)
  erase_from_sector-cases =
      at_idx_lem (λ (l : List ℕ). has i l ≡ true → ((y, x) ≡ c → i ≢ id) × (has i (s y x) ≡ true)) c
        (erase id (s c.0 c.1)) s y x
        (λ e h. (
          λ _. (erase-cases i id (s c.0 c.1) h).0,
          ap (λ (d : ℕ × ℕ). has i (s d.0 d.1)) e ∙ (erase-cases i id (s c.0 c.1) h).1,
        ))
        (λ n h. (λ e. absurd (n e), h))

  pub erase_from_sector-keeps :
      i ≢ id → has i (s y x) ≡ true → has i (erase_from_sector c id s y x) ≡ true
  erase_from_sector-keeps n h =
      at_idx_lem (λ (l : List ℕ). has i l ≡ true) c (erase id (s c.0 c.1)) s y x
        (λ e. erase-keeps i id (s c.0 c.1) n (sym (ap (λ (d : ℕ × ℕ). has i (s d.0 d.1)) e) ∙ h))
        (λ m. h)

pub insert_in_sector-has :
    (c : ℕ × ℕ) (id : ℕ) (s : ℕ → ℕ → List ℕ) → has id (insert_in_sector c id s c.0 c.1) ≡ true
insert_in_sector-has c id s =
    at_idx_lem (λ (l : List ℕ). has id l ≡ true) c (insert id (s c.0 c.1)) s c.0 c.1
      (λ e. insert-has id (s c.0 c.1)) (λ n. absurd (n refl))
