-- ===== src/Prelude/Stores.antt =====
-- Objects in a store: a number stands for a pointer.
use Prim.Native.Nat.{ℕ}
use mathlib.Core.Path.{◌≡◌, refl}
use mathlib.Core.Logic.{◌≢◌}
use rio_iocp_server.Prelude.Tests.{◌==◌, if◌then◌else◌, if_lem, same_id, other_id}

-- A change of one object.
abbrev pub at : {A : Type 0} → ℕ → A → (ℕ → A) → ℕ → A
at i a f j = if j == i then a else f j

pub at_lem :
    {A : Type 0} (P : A → Type 0) (i : ℕ) (a : A) (f : ℕ → A) (j : ℕ)
    → (j ≡ i → P a)
    → (j ≢ i → P (f j))
    → P (at i a f j)
at_lem P i a f j p q = if_lem P (j == i) a (f j) (λ e. p (same_id j i e)) (λ e. q (other_id j i e))

pub at_self : {A : Type 0} (i : ℕ) (a : A) (f : ℕ → A) → at i a f i ≡ a
at_self i a f = at_lem (λ b. b ≡ a) i a f i (λ e. refl) (λ n. absurd (n refl))

pub at_other : {A : Type 0} (i : ℕ) (a : A) (f : ℕ → A) (j : ℕ) → j ≢ i → at i a f j ≡ f j
at_other i a f j n = at_lem (λ b. b ≡ f j) i a f j (λ e. absurd (n e)) (λ m. refl)
