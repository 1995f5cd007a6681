-- ===== src/GlobalQueue.antt =====
-- ServerCore/Job/GlobalQueue.cpp and the queue under a lock that it is (ServerCore/Utils/LockQueue.h), with
-- the job queues that stand in it. A job queue is a number; each call is one step under the lock.
pub mod Pool
pub mod Standing
mod Tests
use rio_iocp_server.Prelude.{ℕ, zero, suc, Option, none, some, List, [], ◌∷◌, ◌++◌, length}

-- `Push` and `Pop` of LockQueue. An empty queue gives a null pointer.
unfoldable pub lock_push : ℕ → List ℕ → List ℕ
lock_push item queue = queue ++ item ∷ []

unfoldable pub lock_pop : List ℕ → Option ℕ × List ℕ
lock_pop [] = (none, [])
lock_pop (item ∷ queue) = (some item, queue)

pub record GlobalQueue : Type 0 where
  pub job_queues : List ℕ
  pub job_list : List ℕ

-- `Push` and `Pop`
unfoldable pub push : ℕ → GlobalQueue → GlobalQueue
push q g = record g { job_queues = lock_push q g.job_queues }

unfoldable pub pop : GlobalQueue → Option ℕ × GlobalQueue
pop g = let (q, rest) = lock_pop g.job_queues in (q, record g { job_queues = rest })

-- `PushToList`
unfoldable pub push_to_list : ℕ → GlobalQueue → GlobalQueue
push_to_list q g = record g { job_list = g.job_list ++ q ∷ [] }

abbrev pub entry : List ℕ → ℕ → Option ℕ
entry [] idx = none
entry (q ∷ qs) zero = some q
entry (q ∷ qs) (suc idx) = entry qs idx

-- `GetRefToJob`; an index that is too large, as a negative one is when it is converted, gives a null
-- pointer.
unfoldable pub get_ref_to_job : ℕ → GlobalQueue → Option ℕ
get_ref_to_job idx g = entry g.job_list idx
