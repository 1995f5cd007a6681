-- ===== src/RwLock/Tests.antt =====
-- Runs of the lock (ServerCore/Thread/RWLock.cpp), and its theorems at concrete locks.
use rio_iocp_server.Prelude.{ℕ, ◌<◌, ◌≡◌, refl, false, arith}
use rio_iocp_server.RwLock.{RwLock, make_lock, try_read, read_unlock, try_write, write_unlock}
use rio_iocp_server.RwLock.Held.{Held, Locks, at, unused, reads, stops_reading, writes}
use rio_iocp_server.RwLock.Exclusion.{excludes_lem}

abbrev written : RwLock
written = record { lock_flag = 196608; write_cnt = 1 }

-- Thread 3 writes: readers and other writers have to wait, and the lock is free when it unlocks.
try_read-written : try_read 196608 written ≡ (false, written)
unfolding try_read
try_read-written = refl

try_write-written : try_write 4 written ≡ (false, written)
unfolding try_write
try_write-written = refl

write_unlock-written : write_unlock 3 written ≡ make_lock
unfolding write_unlock make_lock
write_unlock-written = refl

-- A thread reads and stops, and then thread 3 writes.
abbrev by_three : Held
by_three = record { lock = written; readers = 0; depth = λ t. at 3 1 (λ u. 0) t }

by_three-Locks : Locks by_three
unfolding make_lock try_read read_unlock try_write
by_three-Locks =
    writes 3 (stops_reading 0 (reads 0 unused (omega arith)) refl) (omega arith) (omega arith)

excludes_lem_example :
    (by_three.readers ≡ 0)
    × (by_three.lock.write_cnt ≡ by_three.depth 3)
    × (0 < by_three.depth 4 → ◌≡◌ {A = ℕ} 4 3)
excludes_lem_example = excludes_lem by_three 3 4 by_three-Locks (omega arith)
