-- ===== src/RwLock.antt =====
-- ServerCore/Thread/RWLock.cpp and RWLock.h: a lock word whose upper half is the id of the thread that
-- writes and whose lower half counts the readers.
-- A word of 32 bits is a number below 2 ^ 32. Every function but `write_unlock` is one atomic
-- operation on the word with what its thread does around it; `m_writeCnt` belongs to the writer.
pub mod Held
pub mod Readers
pub mod Writers
pub mod Exclusion
pub mod NoId
mod Tests
use rio_iocp_server.Prelude.{ℕ, ◌+◌, ◌-◌, ◌*◌, ◌/◌, ◌%◌, Bool, true, false, if◌then◌else◌, ◌==◌}

pub record RwLock : Type 0 where
  pub lock_flag : ℕ
  pub write_cnt : ℕ

unfoldable pub make_lock : RwLock
make_lock = record { lock_flag = 0; write_cnt = 0 }

-- `(flag & WRITE_LOCK_MASK) >> 16` and `flag & READ_LOCK_MASK`.
abbrev pub writer_of : ℕ → ℕ
writer_of flag = flag / 65536

abbrev pub readers_of : ℕ → ℕ
readers_of flag = flag % 65536

-- One try of `ReadLock`, when the word that it loaded was `loaded`.
unfoldable pub try_read : ℕ → RwLock → Bool × RwLock
try_read loaded l =
    if l.lock_flag == readers_of loaded
    then (true, record l { lock_flag = (readers_of loaded + 1) % 4294967296 })
    else (false, l)

-- `ReadUnlock`; false when it reports an error.
unfoldable pub read_unlock : RwLock → Bool × RwLock
read_unlock l =
    let l' = record l { lock_flag = (l.lock_flag + 4294967295) % 4294967296 } in
    if readers_of l.lock_flag == 0 then (false, l') else (true, l')

-- The start of `WriteLock`: the thread that writes may lock again.
unfoldable pub write_again : ℕ → RwLock → Bool × RwLock
write_again thread_id l =
    if thread_id == writer_of l.lock_flag
    then (true, record l { write_cnt = l.write_cnt + 1 })
    else (false, l)

-- One try of the loop of `WriteLock`.
unfoldable pub try_write : ℕ → RwLock → Bool × RwLock
try_write thread_id l =
    if l.lock_flag == 0
    then (true, record l { lock_flag = thread_id % 65536 * 65536; write_cnt = l.write_cnt + 1 })
    else (false, l)

-- `WriteUnlock`
unfoldable pub write_unlock : ℕ → RwLock → RwLock
write_unlock thread_id l =
    if writer_of l.lock_flag == thread_id
    then (if l.write_cnt - 1 == 0
        then record l { lock_flag = 0; write_cnt = l.write_cnt - 1 }
        else record l { write_cnt = l.write_cnt - 1 })
    else l
