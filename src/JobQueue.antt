-- ===== src/JobQueue.antt =====
-- ServerCore/Job/JobQueue.cpp and JobQueue.h: a queue of jobs and their count.
-- A job is a number. Every function is one atomic operation on the count or one call of the
-- LockQueue (ServerCore/Utils/LockQueue.h), which is a queue under a lock.
pub mod Workers
pub mod Steps
pub mod Actor
mod Tests
use rio_iocp_server.Prelude.{ℕ, ◌+◌, ◌-◌, Bool, List, [], ◌∷◌, ◌++◌, ◌==◌}

pub record JobQueue : Type 0 where
  pub job_count : ℕ
  pub jobs : List ℕ

-- `m_jobCount.fetch_add(1)`; true when the count was 0 before, so that the caller has to give the
-- queue to the GlobalQueue.
unfoldable pub count_job : JobQueue → Bool × JobQueue
count_job q = (q.job_count == 0, record q { job_count = q.job_count + 1 })

-- `m_jobs.Push(job)`
unfoldable pub push_job : ℕ → JobQueue → JobQueue
push_job job q = record q { jobs = q.jobs ++ job ∷ [] }

-- `m_jobs.PopAll(jobs)`
unfoldable pub pop_all : JobQueue → List ℕ × JobQueue
pop_all q = (q.jobs, record q { jobs = [] })

-- `m_jobCount.fetch_sub(jobCount)`; true when no job is left and `Execute` returns.
unfoldable pub uncount_jobs : ℕ → JobQueue → Bool × JobQueue
uncount_jobs job_count q =
    (q.job_count == job_count, record q { job_count = q.job_count - job_count })
