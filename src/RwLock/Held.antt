-- ===== src/RwLock/Held.antt =====
-- The threads that hold a lock of RWLock.cpp, and the steps that they take.
use rio_iocp_server.Prelude.{ℕ, suc, ◌+◌, ◌*◌, ◌<◌, ◌≡◌, ◌≢◌, ◌⊎◌, Bool, if◌then◌else◌, ◌==◌}
use rio_iocp_server.RwLock.{
  RwLock, make_lock, try_read, read_unlock, write_again, try_write, write_unlock,
}

-- A lock, how many read locks are held, and how often each thread holds the write lock.
pub record Held : Type 0 where
  pub lock : RwLock
  pub readers : ℕ
  pub depth : ℕ → ℕ

abbrev pub count : Bool → ℕ
count b = if b then 1 else 0

abbrev pub at : ℕ → ℕ → (ℕ → ℕ) → ℕ → ℕ
at thread_id n depth other = if other == thread_id then n else depth other

-- Steps of threads with ids from 1 to 65535, of which fewer than 65535 read together. A thread
-- unlocks what it holds. The word that `ReadLock` loads may be out of date: it is any number.
pub data Locks : Held → Type 0 where
  unused : Locks (record { lock = make_lock; readers = 0; depth = λ t. 0 })
  reads :
      (loaded : ℕ) {h : Held}
      → Locks h
      → h.readers < 65535
      → Locks (record h {
        lock = (try_read loaded h.lock).1;
        readers = h.readers + count (try_read loaded h.lock).0;
      })
  stops_reading :
      (k : ℕ) {h : Held}
      → Locks h
      → h.readers ≡ suc k
      → Locks (record h { lock = (read_unlock h.lock).1; readers = k })
  writes_again :
      (thread_id : ℕ) {h : Held}
      → Locks h
      → 0 < thread_id
      → thread_id < 65536
      → Locks (record h {
        lock = (write_again thread_id h.lock).1;
        depth = at thread_id (h.depth thread_id + count (write_again thread_id h.lock).0) h.depth;
      })
  writes :
      (thread_id : ℕ) {h : Held}
      → Locks h
      → 0 < thread_id
      → thread_id < 65536
      → Locks (record h {
        lock = (try_write thread_id h.lock).1;
        depth = at thread_id (h.depth thread_id + count (try_write thread_id h.lock).0) h.depth;
      })
  stops_writing :
      (thread_id k : ℕ) {h : Held}
      → Locks h
      → h.depth thread_id ≡ suc k
      → Locks (record h { lock = write_unlock thread_id h.lock; depth = at thread_id k h.depth })

pub record Free (h : Held) : Type 0 where
  pub flag : h.lock.lock_flag ≡ h.readers
  pub few : h.readers < 65536
  pub none : h.lock.write_cnt ≡ 0
  pub nobody : (t : ℕ) → h.depth t ≡ 0

pub record Owned (h : Held) (w : ℕ) : Type 0 where
  pub some : 0 < w
  pub small : w < 65536
  pub flag : h.lock.lock_flag ≡ w * 65536
  pub no_reader : h.readers ≡ 0
  pub counted : 0 < h.lock.write_cnt
  pub mine : h.depth w ≡ h.lock.write_cnt
  pub others : (t : ℕ) → t ≢ w → h.depth t ≡ 0

unfoldable pub Sound : Held → Type 0
Sound h = Free h ⊎ ((w : ℕ) × Owned h w)
