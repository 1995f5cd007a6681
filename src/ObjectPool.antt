-- ===== src/ObjectPool.antt =====
-- ServerCore/Memory/ObjectPool.h: a pool of free objects, and two counts.
-- An object is its address. `_aligned_malloc` is outside: `Pop` has its answer as an argument, and uses
-- it when the list is empty.
pub mod Uses
mod Tests
use rio_iocp_server.Prelude.{
  ℕ, ◌+◌, Bool, true, false, Option, none, some, List, [], ◌∷◌, ℤ, pos, ◌+ℤ◌, ◌-ℤ◌,
}

pub record ObjectPool : Type 0 where
  pub header : List ℕ
  pub use_count : ℤ
  pub alloc_count : ℤ

-- The constructor.
abbrev pub make_pool : ObjectPool
make_pool = record { header = []; use_count = pos 0; alloc_count = pos 0 }

-- `Push`
unfoldable pub push : ℕ → ObjectPool → ObjectPool
push object p = record p { header = object ∷ p.header; use_count = p.use_count -ℤ pos 1 }

-- `InterlockedPopEntrySList`, and `_aligned_malloc` when there is no entry.
unfoldable pub pop_entry : Option ℕ → List ℕ → ObjectPool → Option ℕ × ObjectPool
pop_entry allocated [] p = (allocated, record p { alloc_count = p.alloc_count +ℤ pos 1 })
pop_entry allocated (object ∷ header) p = (some object, record p { header = header })

-- `Pop`
unfoldable pub pop : Option ℕ → ObjectPool → Option ℕ × ObjectPool
pop allocated p =
    let (object, popped) = pop_entry allocated p.header p in
    (object, record popped { use_count = popped.use_count +ℤ pos 1 })
