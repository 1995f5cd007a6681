-- ===== src/ObjectPool/Uses.antt =====
-- The use of a pool (ObjectPool.h): what `Pop` gave is pushed once, and `_aligned_malloc` does not
-- give memory that is not freed.
use rio_iocp_server.Prelude.{
  ℕ, suc, ◌+◌, ◌≡◌, refl, sym, ap, ◌∙◌, inl, inr, Bool, true, false, Option, none, some, List, [],
  ◌∷◌, arith, length, ℤ, pos, ◌+ℤ◌, ◌-ℤ◌, ◌==◌, ◌&&◌, ◌||◌, not, has, erase, has-erase, Distinct,
  erase-Distinct, length-erase, Bool-cases, same_id, subst,
}
use rio_iocp_server.ObjectPool.{ObjectPool, make_pool, push, pop, pop_entry}

-- `live` are the objects that the program has from the pool; `failures` counts the calls of `Pop` that
-- returned null.
pub data Uses : List ℕ → ℕ → ObjectPool → Type 0 where
  made : Uses [] 0 make_pool
  pops :
      {live : List ℕ} {failures : ℕ} {p : ObjectPool} (allocated object : ℕ)
      → Uses live failures p
      → has allocated live ≡ false
      → has allocated p.header ≡ false
      → (pop (some allocated) p).0 ≡ some object
      → Uses (object ∷ live) failures (pop (some allocated) p).1
  fails :
      {live : List ℕ} {failures : ℕ} {p : ObjectPool}
      → Uses live failures p
      → (pop none p).0 ≡ none
      → Uses live (failures + 1) (pop none p).1
  pushes :
      {live : List ℕ} {failures : ℕ} {p : ObjectPool} (object : ℕ)
      → Uses live failures p
      → has object live ≡ true
      → Uses (erase object live) failures (push object p)

pub record Owned (live : List ℕ) (failures : ℕ) (p : ObjectPool) : Type 0 where
  -- No object is in use or free twice, and none is both.
  pub live_once : Distinct live
  pub free_once : Distinct p.header
  pub apart : (object : ℕ) → has object live ≡ true → has object p.header ≡ false
  pub uses : p.use_count ≡ pos (length live + failures)
  pub allocs : p.alloc_count ≡ pos (length live + length p.header + failures)

plus_one : (n m : ℕ) (z : ℤ) → z ≡ pos n → m ≡ n + 1 → z +ℤ pos 1 ≡ pos m
unfolding ◌+ℤ◌
plus_one n m z e h = ap (λ y. y +ℤ pos 1) e ∙ ground (arith, h)

minus_one : (n m : ℕ) (z : ℤ) → z ≡ pos n → n ≡ suc m → z -ℤ pos 1 ≡ pos m
unfolding ◌-ℤ◌
minus_one n m z e h = ap (λ y. y -ℤ pos 1) e ∙ ground (arith, h)

same_object : (a b : ℕ) → ◌≡◌ {A = Option ℕ} (some a) (some b) → a ≡ b
same_object a b e = ap (λ (o : Option ℕ). elim o [ none ↦ 0 | some n ↦ n ]) e

abbrev pool : List ℕ → ℤ → ℤ → ObjectPool
pool header u a = record { header = header; use_count = u; alloc_count = a }

module _ (live : List ℕ) (failures : ℕ) (u a : ℤ) where
  pop-Owned :
      (allocated object : ℕ) (header : List ℕ)
      → Owned live failures (pool header u a)
      → has allocated live ≡ false
      → (pop (some allocated) (pool header u a)).0 ≡ some object
      → Owned (object ∷ live) failures (pop (some allocated) (pool header u a)).1
  unfolding pop pop_entry Distinct has
  pop-Owned allocated object [] o new e =
      subst (λ i. Owned (i ∷ live) failures (pop (some allocated) (pool [] u a)).1)
        (same_object allocated object e)
        (record {
          live_once = (new, o.live_once);
          free_once = tt;
          apart = λ i h. refl;
          uses = plus_one _ _ u o.uses (omega arith);
          allocs = plus_one _ _ a o.allocs (omega arith);
        })
  pop-Owned allocated object (t ∷ header) o new e =
      subst (λ i. Owned (i ∷ live) failures (pop (some allocated) (pool (t ∷ header) u a)).1)
        (same_object t object e)
        (record {
          live_once = (not_live, o.live_once);
          free_once = o.free_once.1;
          apart = λ i h. elim (Bool-cases (i == t)) [
            | inl same ↦ ap (λ j. has j header) (same_id i t same) ∙ o.free_once.0
            | inr differs ↦
                behind (i == t) (has i header)
                  (o.apart i (behind_true (i == t) (has i live) differs h))
          ];
          uses = plus_one _ _ u o.uses (omega arith);
          allocs = o.allocs ∙ ap pos (omega arith);
        })
    where
      behind : (b c : Bool) → (b || c) ≡ false → c ≡ false
      behind b c h = ground (arith, h)

      behind_true : (b c : Bool) → b ≡ false → (b || c) ≡ true → c ≡ true
      behind_true b c n h = ground (arith, n, h)

      not_live : has t live ≡ false
      not_live = elim (Bool-cases (has t live)) [
        | inl there ↦ ground (arith, o.apart t there)
        | inr out ↦ out
      ]

  fail-Owned :
      (header : List ℕ)
      → Owned live failures (pool header u a)
      → (pop none (pool header u a)).0 ≡ none
      → Owned live (failures + 1) (pop none (pool header u a)).1
  unfolding pop pop_entry has Distinct
  fail-Owned [] o e = record {
    live_once = o.live_once;
    free_once = tt;
    apart = λ i h. refl;
    uses = plus_one _ _ u o.uses (omega arith);
    allocs = plus_one _ _ a o.allocs (omega arith);
  }
  fail-Owned (t ∷ header) o e =
      absurd (ground (arith, ap (λ (x : Option ℕ). elim x [ none ↦ false | some n ↦ true ]) e))

  push-Owned :
      (object : ℕ) (header : List ℕ)
      → Owned live failures (pool header u a)
      → has object live ≡ true
      → Owned (erase object live) failures (push object (pool header u a))
  unfolding push Distinct has
  push-Owned object header o there = record {
    live_once = erase-Distinct object live o.live_once;
    free_once = (o.apart object there, o.free_once);
    apart = λ i h.
        both (i == object) (has i live) (has i header) (sym (has-erase i object live) ∙ h)
          (o.apart i);
    uses = minus_one _ _ u o.uses (omega (arith, one_less));
    allocs = o.allocs ∙ ap pos (omega (arith, one_less));
  }
    where
      both : (b c d : Bool) → (not b && c) ≡ true → (c ≡ true → d ≡ false) → (b || d) ≡ false
      both b true d h k = ground (arith, h, k refl)
      both b false d h k = ground (arith, h)

      one_less : suc (length (erase object live)) ≡ length live
      one_less = length-erase object live o.live_once there

-- However a program uses a pool, when it pushes only objects that it has from the pool and
-- `_aligned_malloc` gives only memory that is neither in use nor in the pool: no object is in use or
-- free twice, none is both, `m_useCount` is the number of objects in use and of the calls of `Pop` that
-- returned null, and `m_allocCount` counts the objects in use, the free ones and those calls.
pub Uses-Owned :
    (live : List ℕ) (failures : ℕ) (p : ObjectPool) → Uses live failures p → Owned live failures p
unfolding Distinct has
Uses-Owned _ _ _ made = record {
  live_once = tt;
  free_once = tt;
  apart = λ i h. refl;
  uses = refl;
  allocs = refl;
}
Uses-Owned _ _ _ (pops {live} {failures} {p} allocated object u new free e) =
    pop-Owned live failures p.use_count p.alloc_count allocated object p.header
      (Uses-Owned live failures p u) new e
Uses-Owned _ _ _ (fails {live} {failures} {p} u e) =
    fail-Owned live failures p.use_count p.alloc_count p.header (Uses-Owned live failures p u) e
Uses-Owned _ _ _ (pushes {live} {failures} {p} object u there) =
    push-Owned live failures p.use_count p.alloc_count object p.header
      (Uses-Owned live failures p u) there
