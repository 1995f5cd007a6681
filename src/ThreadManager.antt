-- ===== src/ThreadManager.antt =====
-- ServerCore/Thread/ThreadManager.cpp: the threads and their ids.
-- A new thread counts itself and reads the count in two steps, without the lock of the manager.
pub mod Ids
mod Tests
use rio_iocp_server.Prelude.{ℕ, suc, ◌+◌, ◌≡◌, Bool, true, List, [], ◌∷◌}

-- The length of `m_threads`, and `m_threadCnt`.
pub record ThreadManager : Type 0 where
  pub threads : ℕ
  pub thread_cnt : ℕ

abbrev pub new_manager : ThreadManager
new_manager = record { threads = 0; thread_cnt = 0 }

-- `CreateThread`
unfoldable pub create_thread : ThreadManager → ThreadManager
create_thread m = record m { threads = m.threads + 1 }

-- `m_threadCnt++` of the new thread, taken as one step.
unfoldable pub count_thread : ThreadManager → ThreadManager
count_thread m = record m { thread_cnt = m.thread_cnt + 1 }

-- `LThreadId = m_threadCnt`
unfoldable pub read_thread_id : ThreadManager → ℕ
read_thread_id m = m.thread_cnt

-- `JoinThreads`, when all threads have ended.
unfoldable pub join_threads : ThreadManager → ThreadManager
join_threads m = record { threads = 0; thread_cnt = 0 }

-- The manager; how many threads are in front of their first step, and between the two; and the ids of
-- those that run.
pub record Threads : Type 0 where
  pub manager : ThreadManager
  pub created : ℕ
  pub counted : ℕ
  pub ids : List ℕ

abbrev pub no_threads : Threads
no_threads = record { manager = new_manager; created = 0; counted = 0; ids = [] }

abbrev pub counts_one : ℕ → Threads → Threads
counts_one k t = record t { manager = count_thread t.manager; created = k; counted = t.counted + 1 }

abbrev pub reads_one : ℕ → Threads → Threads
reads_one k t = record t { counted = k; ids = read_thread_id t.manager ∷ t.ids }

-- `Starts in_turn t t'`: from `t` the threads come to `t'`; `in_turn` says that no thread counts itself
-- while another one has yet to read the count.
pub data Starts (in_turn : Bool) (t : Threads) : Threads → Type 0 where
  start : Starts in_turn t t
  creates :
      {t' : Threads}
      → Starts in_turn t t'
      → Starts in_turn t
          (record t' { manager = create_thread t'.manager; created = t'.created + 1 })
  counts :
      (k : ℕ) {t' : Threads}
      → Starts in_turn t t'
      → t'.created ≡ suc k
      → (in_turn ≡ true → t'.counted ≡ 0)
      → Starts in_turn t (counts_one k t')
  reads :
      (k : ℕ) {t' : Threads}
      → Starts in_turn t t'
      → t'.counted ≡ suc k
      → Starts in_turn t (reads_one k t')
  joins :
      {t' : Threads}
      → Starts in_turn t t'
      → t'.created ≡ 0
      → t'.counted ≡ 0
      → Starts in_turn t (record t' { manager = join_threads t'.manager; ids = [] })
