-- ===== src/JobQueue/Workers.antt =====
-- The threads that use a JobQueue (JobQueue.cpp), and the steps that they take.
use rio_iocp_server.Prelude.{
  ℕ, suc, ◌+◌, ◌≤◌, ◌≡◌, Bool, List, [], ◌∷◌, ◌++◌, if◌then◌else◌, not, ◌&&◌, length, flatten,
}
use rio_iocp_server.JobQueue.{JobQueue, count_job, push_job, pop_all, uncount_jobs}

-- A queue; how many threads are in `Push` behind its `fetch_add`, with the job not pushed yet; how many
-- are to give the queue to the GlobalQueue; how often it stands in the GlobalQueue; how many threads
-- are at the top of the loop of `Execute`; the jobs of those that are behind `PopAll`; and the jobs
-- that were executed to the end of a round, in order.
pub record Workers : Type 0 where
  pub queue : JobQueue
  pub pushing : ℕ
  pub announcing : ℕ
  pub waiting : ℕ
  pub looping : ℕ
  pub running : List (List ℕ)
  pub executed : List ℕ

abbrev pub count : Bool → ℕ
count b = if b then 1 else 0

-- A thread announces the queue after its own `m_jobs.Push`; here it may do so before, too.
-- `Works w pushed w'`: from `w` the threads reach `w'` with the jobs `pushed`, in order.
pub data Works (w : Workers) : List ℕ → Workers → Type 0 where
  start : Works w [] w
  counts :
      {pushed : List ℕ} {w' : Workers}
      → Works w pushed w'
      → Works w pushed (record w' {
        queue = (count_job w'.queue).1;
        pushing = w'.pushing + 1;
        announcing = w'.announcing + count (count_job w'.queue).0;
      })
  pushes :
      (job k : ℕ) {pushed : List ℕ} {w' : Workers}
      → Works w pushed w'
      → w'.pushing ≡ suc k
      → Works w (pushed ++ job ∷ []) (record w' { queue = push_job job w'.queue; pushing = k })
  announces :
      (k : ℕ) {pushed : List ℕ} {w' : Workers}
      → Works w pushed w'
      → w'.announcing ≡ suc k
      → Works w pushed (record w' { announcing = k; waiting = w'.waiting + 1 })
  executes :
      (k : ℕ) {pushed : List ℕ} {w' : Workers}
      → Works w pushed w'
      → w'.waiting ≡ suc k
      → Works w pushed (record w' { waiting = k; looping = w'.looping + 1 })
  pops :
      (k : ℕ) {pushed : List ℕ} {w' : Workers}
      → Works w pushed w'
      → w'.looping ≡ suc k
      → Works w pushed (record w' {
        queue = (pop_all w'.queue).1;
        looping = k;
        running = (pop_all w'.queue).0 ∷ w'.running;
      })
  -- The end of a round: `Execute` returns, or its time is over and it gives the queue back, or it
  -- goes on.
  finishes :
      (time_is_over : Bool) (jobs : List ℕ) (rest : List (List ℕ)) {pushed : List ℕ} {w' : Workers}
      → Works w pushed w'
      → w'.running ≡ jobs ∷ rest
      → Works w pushed (record w' {
        queue = (uncount_jobs (length jobs) w'.queue).1;
        running = rest;
        executed = w'.executed ++ jobs;
        looping =
            w'.looping + count (not (uncount_jobs (length jobs) w'.queue).0 && not time_is_over);
        announcing =
            w'.announcing + count (not (uncount_jobs (length jobs) w'.queue).0 && time_is_over);
      })

-- One thread, or one entry of the GlobalQueue, is in charge of the queue when jobs are counted, and
-- none when none is; the count is that of the jobs that are on their way, queued or executed; and
-- the jobs executed, those of the round and those queued are the pushed ones in order.
pub record Actor (pushed : List ℕ) (w : Workers) : Type 0 where
  pub one : w.announcing + w.waiting + w.looping + length w.running ≤ 1
  pub free : w.announcing + w.waiting + w.looping + length w.running ≡ 0 → w.queue.job_count ≡ 0
  pub busy : w.queue.job_count ≡ 0 → w.announcing + w.waiting + w.looping + length w.running ≡ 0
  pub counted : w.queue.job_count ≡ w.pushing + (length w.queue.jobs + length (flatten w.running))
  pub order : w.executed ++ (flatten w.running ++ w.queue.jobs) ≡ pushed
