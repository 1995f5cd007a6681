-- ===== src/RwLock/NoId.antt =====
-- `WriteLock` of RWLock.cpp in a thread whose `LThreadId` is 0, as it is where no one sets it.
use rio_iocp_server.Prelude.{ℕ, ◌<◌, ◌≡◌, refl, true, ◌==◌, arith}
use rio_iocp_server.RwLock.{RwLock, write_again, try_write, writer_of}

zero_writes : (flag : ℕ) → flag < 65536 → (0 == writer_of flag) ≡ true
zero_writes flag small = ground arith

-- `WriteLock` in a thread with the id 0, on a lock that no thread holds to write: it returns as if the
-- lock were the thread's already, and leaves the word as it is, so that on a free lock another thread
-- gets the write lock as well.
pub write_again-no_id :
    (l : RwLock)
    → l.lock_flag < 65536
    → ((write_again 0 l).0 ≡ true)
      × ((write_again 0 l).1.lock_flag ≡ l.lock_flag)
      × ((thread_id : ℕ) → l.lock_flag ≡ 0 → (try_write thread_id (write_again 0 l).1).0 ≡ true)
unfolding write_again try_write
write_again-no_id l small =
    rw (zero_writes l.lock_flag small) (refl, refl, λ t empty. rw (is_zero l.lock_flag empty) refl)
  where
    is_zero : (n : ℕ) → n ≡ 0 → (n == 0) ≡ true
    is_zero n e = ground arith
